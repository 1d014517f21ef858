-- ===== src/Federation/EpochManager/Agreement.antt =====
-- After one rotation, initiator and responder are paired in both directions.
use hokora.Base.{ℕ, ◌+◌, ◌≡◌, refl, sym, ap, ◌∙◌, none, some, [], ◌∷◌, ◌++◌, arith, length}
use hokora.Bytes.{Bytes, pack_be}
use hokora.Result.{Result, ok}
use hokora.Federation.EpochWire.{
  EpochRotateAck, decode_epoch_rotate, encode_epoch_rotate_ack, decode_epoch_rotate_ack,
}
use hokora.Federation.EpochCrypto.{
  Primitives, derive_epoch_keys, compute_chain_hash, epoch_label, i2r_label, r2i_label,
}
use hokora.Federation.EpochManager.{
  EpochManager, EpochError, rotate_frame, ack_frame, create_epoch_rotate, activate_epoch,
  check_rotate, accept_rotate, handle_epoch_rotate, check_ack, accept_ack, handle_epoch_rotate_ack,
  from_wire,
}
use hokora.Federation.EpochManager.Delivery.{Paired}
use hokora.Federation.EpochManager.Handshake.{
  check_rotate_ok, check_ack_ok, HasProtocolSizes, Peers, encode_rotate_fits, encode_ack_fits,
  rotate, pass_ack, pass_rotate,
}

module _ (c : Primitives) (z : HasProtocolSizes c) (i r : EpochManager) (a b : Bytes)
    (p : Peers c i r a b) (prefix_i prefix_r : Bytes) (now_i now_r : ℕ) where
  next : ℕ
  next = i.current_epoch_id + 1

  i2r : Bytes
  i2r = c.hkdf p.secret (epoch_label ++ (pack_be 8 next ++ i2r_label))

  r2i : Bytes
  r2i = c.hkdf p.secret (epoch_label ++ (pack_be 8 next ++ r2i_label))

  derive_r : derive_epoch_keys c b (c.public_key a) next ≡ some (i2r, r2i)
  unfolding derive_epoch_keys i2r r2i next
  derive_r = rw (p.exchange_r, derive_epoch_keys) refl

  derive_i : derive_epoch_keys c a (c.public_key b) next ≡ some (i2r, r2i)
  unfolding derive_epoch_keys i2r r2i next
  derive_i = rw (p.exchange_i, derive_epoch_keys) refl

  asked : EpochManager
  asked = (create_epoch_rotate c i a).1

  r_after : EpochManager
  r_after = activate_epoch c r next r2i i2r i2r prefix_r now_r

  i_after : EpochManager
  i_after = record (activate_epoch c asked next i2r r2i i2r prefix_i now_i) {
    pending_private_key = none;
    pending_public_key = [];
  }

  sent :
      (bytes : Bytes) × ((create_epoch_rotate c i a).0 ≡ ok bytes)
      × (decode_epoch_rotate bytes ≡ ok (rotate_frame c i a))
  unfolding create_epoch_rotate rotate_frame
  sent =
      let (bytes, e, d) = encode_rotate_fits (rotate_frame c i a) p.fits p.duration_fits (record {
        pubkey_size = z.public_size a;
        hash_size = p.chain_size;
        signature_size = p.i_size _;
      }) in
      (bytes, ap from_wire e, d)

  checked :
      (bytes : Bytes)
      → decode_epoch_rotate bytes ≡ ok (rotate_frame c i a)
      → check_rotate c r bytes b ≡ ok (rotate_frame c i a, (i2r, r2i))
  unfolding rotate_frame next
  checked bytes d =
      check_rotate_ok c r bytes b (rotate_frame c i a) d p.r_knows (p.i_signs _)
        (omega (arith, p.newer)) (sym p.chain) derive_r

  answer : EpochRotateAck
  answer = ack_frame c r_after next b

  answered :
      (bytes : Bytes) × (encode_epoch_rotate_ack answer ≡ ok bytes)
      × (decode_epoch_rotate_ack bytes ≡ ok answer)
  unfolding answer ack_frame r_after activate_epoch compute_chain_hash next
  answered = encode_ack_fits answer p.fits (record {
    pubkey_size = z.public_size b;
    hash_size = z.hmac_size _ _;
    signature_size = p.r_size _;
  })

  handled :
      (bytes : Bytes)
      → decode_epoch_rotate bytes ≡ ok (rotate_frame c i a)
      → handle_epoch_rotate c r bytes b prefix_r now_r
        ≡ (from_wire (encode_epoch_rotate_ack answer), r_after)
  unfolding handle_epoch_rotate
  handled bytes d =
      rw (checked bytes d) (unfold accept_rotate answer r_after rotate_frame next in refl)

  acked :
      (bytes : Bytes)
      → decode_epoch_rotate_ack bytes ≡ ok answer
      → check_ack c asked bytes ≡ ok (answer, (i2r, r2i))
  unfolding answer ack_frame asked create_epoch_rotate r_after activate_epoch next
  acked bytes d = check_ack_ok c asked bytes answer d p.i_knows (p.r_signs _) refl derive_i

  completed :
      (bytes : Bytes)
      → decode_epoch_rotate_ack bytes ≡ ok answer
      → handle_epoch_rotate_ack c asked bytes prefix_i now_i ≡ (ok tt, i_after)
  unfolding handle_epoch_rotate_ack
  completed bytes d = rw (acked bytes d) (unfold accept_ack answer ack_frame i_after next in refl)

  rotate_lem : rotate c i r a b prefix_i prefix_r now_i now_r ≡ (ok tt, i_after, r_after)
  unfolding rotate create_epoch_rotate asked
  rotate_lem =
      let (bytes, e, d) = sent in
      let (bytes', e', d') = answered in
      ap (λ f. pass_rotate c r b prefix_i prefix_r now_i now_r (f, asked)) e
      ∙ ap (pass_ack c asked prefix_i now_i) (handled bytes d ∙ ap (λ f. (from_wire f, r_after)) e')
      ∙ ap (λ (d : Result EpochError (Unit {0}) × EpochManager). (d.0, d.1, r_after))
          (completed bytes' d')

  -- The key that `k` is, if it is not empty.
  nonempty : (k : Bytes) → length k ≡ 32 → (h : ℕ) × (t : Bytes) × (k ≡ h ∷ t)
  nonempty [] e = absurd (omega arith)
  nonempty (h ∷ t) e = (h, t, refl)

  forwards : length prefix_i ≡ 16 → Paired i_after r_after
  unfolding i_after asked create_epoch_rotate r_after activate_epoch next i2r
  forwards e =
      let (h, t, k) = nonempty i2r (z.hkdf_size _ _) in
      record {
        key_head = h;
        key_tail = t;
        sends = ap some k;
        receives = ap some k;
        same_epoch = refl;
        epoch_fits = p.fits;
        prefix_size = e;
      }

  backwards : length prefix_r ≡ 16 → Paired r_after i_after
  unfolding i_after asked create_epoch_rotate r_after activate_epoch next r2i
  backwards e =
      let (h, t, k) = nonempty r2i (z.hkdf_size _ _) in
      record {
        key_head = h;
        key_tail = t;
        sends = ap some k;
        receives = ap some k;
        same_epoch = refl;
        epoch_fits = p.fits;
        prefix_size = e;
      }

  same_chain : r_after.last_chain_hash ≡ i_after.last_chain_hash
  unfolding i_after asked create_epoch_rotate r_after activate_epoch i2r
  same_chain = let (h, t, k) = nonempty i2r (z.hkdf_size _ _) in rw k refl

-- A rotation ends well between an initiator and a responder that accept each other's signatures,
-- agree on the chain hash and on the shared secret, and for whom the next epoch is new and fits
-- its field, with keys and hashes of 32 bytes and nonce prefixes of 16: both sides are one epoch
-- further for the initiator, their keys pair them in both directions, and they have one chain
-- hash.
pub rotate_agrees :
    (c : Primitives) (i r : EpochManager) (a b prefix_i prefix_r : Bytes) (now_i now_r : ℕ)
    → HasProtocolSizes c
    → Peers c i r a b
    → length prefix_i ≡ 16
    → length prefix_r ≡ 16
    → let (done, i', r') = rotate c i r a b prefix_i prefix_r now_i now_r in
      (done ≡ ok tt)
      × (i'.current_epoch_id ≡ i.current_epoch_id + 1)
      × Paired i' r'
      × Paired r' i'
      × (r'.last_chain_hash ≡ i'.last_chain_hash)
unfolding i_after asked create_epoch_rotate activate_epoch next
rotate_agrees c i r a b prefix_i prefix_r now_i now_r z p si sr =
    rw (rotate_lem c z i r a b p prefix_i prefix_r now_i now_r) (
      refl,
      refl,
      forwards c z i r a b p prefix_i prefix_r now_i now_r si,
      backwards c z i r a b p prefix_i prefix_r now_i now_r sr,
      same_chain c z i r a b p prefix_i prefix_r now_i now_r,
    )
