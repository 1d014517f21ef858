-- ===== src/Federation/EpochWire/RoundTrip.antt =====
-- Decoding undoes encoding, for each kind of epoch frame.
use mathlib.Core.List.{append-nil, append_assoc}
use hokora.Base.{◌^◌, ◌≤◌, ◌<◌, ◌≡◌, refl, ap, ◌∙◌, List, [], ◌∷◌, ◌++◌, arith, length}
use hokora.Result.{ok}
use hokora.Bytes.{
  Bytes, pack_be, unpack_be, unpack-pack, length-pack, join, length-join, slice, slice-join, total,
  unpack_from,
}
use hokora.Federation.EpochWire.{
  EpochRotate, encode_epoch_rotate, decode_epoch_rotate, epoch_rotate, rotate_fields,
}

-- The three fields of fixed size that end a handshake frame.
pub record HasSizes (pubkey prev_hash signature : Bytes) : Type 0 where
  pub pubkey_size : length pubkey ≡ 32
  pub hash_size : length prev_hash ≡ 32
  pub signature_size : length signature ≡ 64

abbrev rotate_parts : EpochRotate → List Bytes
rotate_parts f =
    (epoch_rotate ∷ [])
    ∷ pack_be 8 f.epoch_id
    ∷ pack_be 4 f.epoch_duration
    ∷ f.eph_pubkey
    ∷ f.prev_epoch_hash
    ∷ f.signature
    ∷ []

encode_epoch_rotate-join :
    (f : EpochRotate) {frame : Bytes} (rest : Bytes)
    → encode_epoch_rotate f ≡ ok frame
    → (f.epoch_id < 2 ^ 64)
      × (f.epoch_duration < 2 ^ 32)
      × (frame ++ rest ≡ join (rotate_parts f) rest)
unfolding encode_epoch_rotate join
encode_epoch_rotate-join f {frame} rest h = (ground arith, ground arith, body)
  where
    bytes : frame ≡ join (rotate_parts f) []
    bytes = ground (arith, append-nil f.signature)

    body : frame ++ rest ≡ join (rotate_parts f) rest
    body = rw bytes (simp (append_assoc, append-nil))

rotate_parts-fit :
    (f : EpochRotate) (rest : Bytes)
    → HasSizes f.eph_pubkey f.prev_epoch_hash f.signature
    → 141 ≤ length (join (rotate_parts f) rest)
rotate_parts-fit f rest s = omega (
  arith,
  length-join (rotate_parts f) rest,
  length-pack 8 f.epoch_id,
  length-pack 4 f.epoch_duration,
)

decode_epoch_rotate_lem :
    (b : Bytes)
    → 141 ≤ length b
    → unpack_be (slice 0 1 b) ≡ epoch_rotate
    → decode_epoch_rotate b ≡ ok (rotate_fields b)
unfolding decode_epoch_rotate
decode_epoch_rotate_lem b h e = ground arith

-- The parts of a frame are where the decoder reads them.
module _ (f : EpochRotate) (rest : Bytes) where
  rotate_type : unpack_be (slice 0 1 (join (rotate_parts f) rest)) ≡ epoch_rotate
  unfolding unpack_from slice join
  rotate_type = refl

  rotate_fields-join :
      f.epoch_id < 2 ^ 64
      → f.epoch_duration < 2 ^ 32
      → HasSizes f.eph_pubkey f.prev_epoch_hash f.signature
      → rotate_fields (join (rotate_parts f) rest) ≡ f
  unfolding rotate_fields join
  rotate_fields-join hi hd s = λ i. record {
    epoch_id = (ap unpack_be id_at ∙ unpack-pack 8 f.epoch_id hi) i;
    epoch_duration = (ap unpack_be duration_at ∙ unpack-pack 4 f.epoch_duration hd) i;
    eph_pubkey = pubkey_at i;
    prev_epoch_hash = hash_at i;
    signature = signature_at i;
  }
    where
      kind : Bytes
      kind = epoch_rotate ∷ []

      id : Bytes
      id = pack_be 8 f.epoch_id

      duration : Bytes
      duration = pack_be 4 f.epoch_duration

      frame : Bytes
      frame = join (rotate_parts f) rest

      id_at : slice 1 8 frame ≡ id
      id_at = slice-join 1 8 (kind ∷ []) id _ refl (length-pack 8 _)

      duration_at : slice 9 4 frame ≡ duration
      duration_at =
          slice-join 9 4 (kind ∷ id ∷ []) duration _ (omega (arith, length-pack 8 f.epoch_id))
            (length-pack 4 _)

      before : total (kind ∷ id ∷ duration ∷ []) ≡ 13
      before = omega (arith, length-pack 8 f.epoch_id, length-pack 4 f.epoch_duration)

      pubkey_at : slice 13 32 frame ≡ f.eph_pubkey
      pubkey_at = slice-join 13 32 (kind ∷ id ∷ duration ∷ []) f.eph_pubkey _ before s.pubkey_size

      hash_at : slice 45 32 frame ≡ f.prev_epoch_hash
      hash_at =
          slice-join 45 32 (kind ∷ id ∷ duration ∷ f.eph_pubkey ∷ []) f.prev_epoch_hash _
            (omega (arith, before)) s.hash_size

      signature_at : slice 77 64 frame ≡ f.signature
      signature_at =
          slice-join 77 64 (kind ∷ id ∷ duration ∷ f.eph_pubkey ∷ f.prev_epoch_hash ∷ [])
            f.signature rest (omega (arith, before)) s.signature_size

-- A frame that the encoder returned for keys and a signature of the sizes that the protocol fixes
-- decodes to the fields that went in, whatever bytes follow it.
pub decode-encode_epoch_rotate :
    (f : EpochRotate) (frame rest : Bytes)
    → HasSizes f.eph_pubkey f.prev_epoch_hash f.signature
    → encode_epoch_rotate f ≡ ok frame
    → decode_epoch_rotate (frame ++ rest) ≡ ok f
decode-encode_epoch_rotate f frame rest s h =
    let (hi, hd, e) = encode_epoch_rotate-join f rest h in
    rw e (
      decode_epoch_rotate_lem _ (rotate_parts-fit f rest s) (rotate_type f rest)
      ∙ ap ok (rotate_fields-join f rest hi hd s))
