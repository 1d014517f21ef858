-- ===== src/Federation/EpochWire/RoundTripData.antt =====
-- Decoding undoes encoding, for the acknowledgement and the data frames.
use mathlib.Core.List.{append-nil, append_assoc}
use hokora.Base.{◌^◌, ◌≤◌, ◌<◌, ◌≡◌, refl, ap, ◌∙◌, List, [], ◌∷◌, ◌++◌, arith, length, drop}
use hokora.Result.{ok}
use hokora.Bytes.{
  Bytes, pack_be, unpack_be, unpack-pack, length-pack, join, length-join, drop-join, slice,
  slice-join, total, unpack_from,
}
use hokora.Federation.EpochWire.{
  EpochRotateAck, EpochData, encode_epoch_rotate_ack, decode_epoch_rotate_ack, encode_epoch_data,
  decode_epoch_data, epoch_rotate_ack, epoch_data, rotate_ack_fields, data_fields,
}
use hokora.Federation.EpochWire.RoundTrip.{HasSizes}

abbrev ack_parts : EpochRotateAck → List Bytes
ack_parts f =
    (epoch_rotate_ack ∷ [])
    ∷ pack_be 8 f.epoch_id
    ∷ f.eph_pubkey
    ∷ f.prev_epoch_hash
    ∷ f.signature
    ∷ []

encode_epoch_rotate_ack-join :
    (f : EpochRotateAck) {frame : Bytes} (rest : Bytes)
    → encode_epoch_rotate_ack f ≡ ok frame
    → (f.epoch_id < 2 ^ 64) × (frame ++ rest ≡ join (ack_parts f) rest)
unfolding encode_epoch_rotate_ack join
encode_epoch_rotate_ack-join f {frame} rest h = (ground arith, body)
  where
    bytes : frame ≡ join (ack_parts f) []
    bytes = ground (arith, append-nil f.signature)

    body : frame ++ rest ≡ join (ack_parts f) rest
    body = rw bytes (simp (append_assoc, append-nil))

ack_parts-fit :
    (f : EpochRotateAck) (rest : Bytes)
    → HasSizes f.eph_pubkey f.prev_epoch_hash f.signature
    → 137 ≤ length (join (ack_parts f) rest)
ack_parts-fit f rest s = omega (arith, length-join (ack_parts f) rest, length-pack 8 f.epoch_id)

decode_epoch_rotate_ack_lem :
    (b : Bytes)
    → 137 ≤ length b
    → unpack_be (slice 0 1 b) ≡ epoch_rotate_ack
    → decode_epoch_rotate_ack b ≡ ok (rotate_ack_fields b)
unfolding decode_epoch_rotate_ack
decode_epoch_rotate_ack_lem b h e = ground arith

module _ (f : EpochRotateAck) (rest : Bytes) where
  ack_type : unpack_be (slice 0 1 (join (ack_parts f) rest)) ≡ epoch_rotate_ack
  unfolding unpack_from slice join
  ack_type = refl

  rotate_ack_fields-join :
      f.epoch_id < 2 ^ 64
      → HasSizes f.eph_pubkey f.prev_epoch_hash f.signature
      → rotate_ack_fields (join (ack_parts f) rest) ≡ f
  unfolding rotate_ack_fields join
  rotate_ack_fields-join hi s = λ i. record {
    epoch_id = (ap unpack_be id_at ∙ unpack-pack 8 f.epoch_id hi) i;
    eph_pubkey = pubkey_at i;
    prev_epoch_hash = hash_at i;
    signature = signature_at i;
  }
    where
      kind : Bytes
      kind = epoch_rotate_ack ∷ []

      id : Bytes
      id = pack_be 8 f.epoch_id

      frame : Bytes
      frame = join (ack_parts f) rest

      id_at : slice 1 8 frame ≡ id
      id_at = slice-join 1 8 (kind ∷ []) id _ refl (length-pack 8 _)

      before : total (kind ∷ id ∷ []) ≡ 9
      before = omega (arith, length-pack 8 f.epoch_id)

      pubkey_at : slice 9 32 frame ≡ f.eph_pubkey
      pubkey_at = slice-join 9 32 (kind ∷ id ∷ []) f.eph_pubkey _ before s.pubkey_size

      hash_at : slice 41 32 frame ≡ f.prev_epoch_hash
      hash_at =
          slice-join 41 32 (kind ∷ id ∷ f.eph_pubkey ∷ []) f.prev_epoch_hash _
            (omega (arith, before)) s.hash_size

      signature_at : slice 73 64 frame ≡ f.signature
      signature_at =
          slice-join 73 64 (kind ∷ id ∷ f.eph_pubkey ∷ f.prev_epoch_hash ∷ []) f.signature rest
            (omega (arith, before)) s.signature_size

pub decode-encode_epoch_rotate_ack :
    (f : EpochRotateAck) (frame rest : Bytes)
    → HasSizes f.eph_pubkey f.prev_epoch_hash f.signature
    → encode_epoch_rotate_ack f ≡ ok frame
    → decode_epoch_rotate_ack (frame ++ rest) ≡ ok f
decode-encode_epoch_rotate_ack f frame rest s h =
    let (hi, e) = encode_epoch_rotate_ack-join f rest h in
    rw e (
      decode_epoch_rotate_ack_lem _ (ack_parts-fit f rest s) (ack_type f rest)
      ∙ ap ok (rotate_ack_fields-join f rest hi s))

abbrev data_parts : EpochData → List Bytes
data_parts f = (epoch_data ∷ []) ∷ pack_be 8 f.epoch_id ∷ f.nonce ∷ []

encode_epoch_data-join :
    (f : EpochData) (frame : Bytes)
    → encode_epoch_data f ≡ ok frame
    → (f.epoch_id < 2 ^ 64) × (frame ≡ join (data_parts f) f.ciphertext)
unfolding encode_epoch_data join
encode_epoch_data-join f frame h = (ground arith, ground arith)

module _ (f : EpochData) (hi : f.epoch_id < 2 ^ 64) (hn : length f.nonce ≡ 24) where
  data_parts-fit : 33 ≤ length (join (data_parts f) f.ciphertext)
  data_parts-fit = omega (arith, length-join (data_parts f) f.ciphertext, length-pack 8 f.epoch_id)

  data_fields-join : data_fields (join (data_parts f) f.ciphertext) ≡ f
  unfolding data_fields join
  data_fields-join = λ i. record {
    epoch_id = (ap unpack_be id_at ∙ unpack-pack 8 f.epoch_id hi) i;
    nonce = nonce_at i;
    ciphertext = ciphertext_at i;
  }
    where
      kind : Bytes
      kind = epoch_data ∷ []

      id : Bytes
      id = pack_be 8 f.epoch_id

      frame : Bytes
      frame = join (data_parts f) f.ciphertext

      id_at : slice 1 8 frame ≡ id
      id_at = slice-join 1 8 (kind ∷ []) id _ refl (length-pack 8 _)

      before : total (kind ∷ id ∷ []) ≡ 9
      before = omega (arith, length-pack 8 f.epoch_id)

      nonce_at : slice 9 24 frame ≡ f.nonce
      nonce_at = slice-join 9 24 (kind ∷ id ∷ []) f.nonce _ before hn

      ciphertext_at : drop 33 frame ≡ f.ciphertext
      ciphertext_at = drop-join 33 (kind ∷ id ∷ f.nonce ∷ []) f.ciphertext (omega (arith, before))

decode_epoch_data_lem :
    (b : Bytes)
    → 33 ≤ length b
    → unpack_be (slice 0 1 b) ≡ epoch_data
    → decode_epoch_data b ≡ ok (data_fields b)
unfolding decode_epoch_data
decode_epoch_data_lem b h e = ground arith

data_type : (f : EpochData) → unpack_be (slice 0 1 (join (data_parts f) f.ciphertext)) ≡ epoch_data
unfolding unpack_from slice join
data_type f = refl

-- A data frame with a 24-byte nonce decodes to its epoch, its nonce and its ciphertext.
pub decode-encode_epoch_data :
    (f : EpochData) (frame : Bytes)
    → length f.nonce ≡ 24
    → encode_epoch_data f ≡ ok frame
    → decode_epoch_data frame ≡ ok f
decode-encode_epoch_data f frame hn h =
    let (hi, e) = encode_epoch_data-join f frame h in
    rw e (
      decode_epoch_data_lem _ (data_parts-fit f hi hn) (data_type f)
      ∙ ap ok (data_fields-join f hi hn))
