-- ===== src/Federation/EpochManager/Handshake.antt =====
-- One rotation between an initiator and a responder: both end in the new epoch with each other's
-- keys.
use mathlib.Core.Path.{subst}
use mathlib.Core.List.{append-nil}
use hokora.Base.{ℕ, ◌+◌, ◌^◌, ◌≤◌, ◌<◌, ◌≡◌, Bool, true, some, [], ◌∷◌, ◌++◌, arith, length}
use hokora.Base.Keys.{bytes_key, same_bytes_iff}
use hokora.Bytes.{Bytes, pack_be}
use hokora.Result.{Result, ok, err}
use hokora.Federation.EpochWire.{
  EpochRotate, EpochRotateAck, epoch_rotate, epoch_rotate_ack, encode_epoch_rotate,
  decode_epoch_rotate, encode_epoch_rotate_ack, decode_epoch_rotate_ack,
}
use hokora.Federation.EpochWire.RoundTrip.{HasSizes, decode-encode_epoch_rotate}
use hokora.Federation.EpochWire.RoundTripData.{decode-encode_epoch_rotate_ack}
use hokora.Federation.EpochCrypto.{Primitives, derive_epoch_keys}
use hokora.Federation.EpochManager.{
  EpochManager, EpochError, rotate_signed, ack_signed, create_epoch_rotate, check_rotate,
  handle_epoch_rotate, check_ack, handle_epoch_rotate_ack,
}

-- The checks of the responder pass for a frame that is signed, newer, and continues the chain.
pub check_rotate_ok :
    (c : Primitives) (m : EpochManager) (bytes private : Bytes) (f : EpochRotate)
    {validate : Bytes → Bytes → Bool} {keys : Bytes × Bytes}
    → decode_epoch_rotate bytes ≡ ok f
    → m.peer_validate ≡ some validate
    → validate f.signature
        (rotate_signed f.epoch_id f.epoch_duration f.eph_pubkey f.prev_epoch_hash)
      ≡ true
    → m.current_epoch_id < f.epoch_id
    → f.prev_epoch_hash ≡ m.last_chain_hash
    → derive_epoch_keys c private f.eph_pubkey f.epoch_id ≡ some keys
    → check_rotate c m bytes private ≡ ok (f, keys)
unfolding check_rotate
check_rotate_ok c m bytes private f d v signed newer chain keys =
    ground (arith, same_bytes_iff f.prev_epoch_hash m.last_chain_hash)

pub check_ack_ok :
    (c : Primitives) (m : EpochManager) (bytes : Bytes) (f : EpochRotateAck)
    {validate : Bytes → Bytes → Bool} {private : Bytes} {keys : Bytes × Bytes}
    → decode_epoch_rotate_ack bytes ≡ ok f
    → m.peer_validate ≡ some validate
    → validate f.signature (ack_signed f.epoch_id f.eph_pubkey f.prev_epoch_hash) ≡ true
    → m.pending_private_key ≡ some private
    → derive_epoch_keys c private f.eph_pubkey f.epoch_id ≡ some keys
    → check_ack c m bytes ≡ ok (f, keys)
unfolding check_ack
check_ack_ok c m bytes f d v signed pending keys = ground arith

-- What the handshake relies on of the primitives: the sizes of keys, hashes and signatures.
pub record HasProtocolSizes (c : Primitives) : Type 0 where
  pub public_size : (private : Bytes) → length (c.public_key private) ≡ 32
  pub hmac_size : (key text : Bytes) → length (c.hmac key text) ≡ 32
  pub hkdf_size : (secret info : Bytes) → length (c.hkdf secret info) ≡ 32

-- An initiator `i` and a responder `r` that accept each other's signatures and agree on the chain,
-- where the next epoch is new to the responder. `a` and `b` are their new private keys.
pub record Peers (c : Primitives) (i r : EpochManager) (a b : Bytes) : Type 0 where
  pub validate_i : Bytes → Bytes → Bool
  pub validate_r : Bytes → Bytes → Bool
  pub r_knows : r.peer_validate ≡ some validate_i
  pub i_knows : i.peer_validate ≡ some validate_r
  pub i_signs : (text : Bytes) → validate_i (i.sign text) text ≡ true
  pub r_signs : (text : Bytes) → validate_r (r.sign text) text ≡ true
  pub i_size : (text : Bytes) → length (i.sign text) ≡ 64
  pub r_size : (text : Bytes) → length (r.sign text) ≡ 64
  pub chain_size : length i.last_chain_hash ≡ 32
  pub chain : r.last_chain_hash ≡ i.last_chain_hash
  pub newer : r.current_epoch_id ≤ i.current_epoch_id
  pub fits : i.current_epoch_id + 1 < 2 ^ 64
  pub duration_fits : i.epoch_duration < 2 ^ 32
  pub secret : Bytes
  pub exchange_i : c.exchange a (c.public_key b) ≡ some secret
  pub exchange_r : c.exchange b (c.public_key a) ≡ some secret

pub encode_rotate_fits :
    (f : EpochRotate)
    → f.epoch_id < 2 ^ 64
    → f.epoch_duration < 2 ^ 32
    → HasSizes f.eph_pubkey f.prev_epoch_hash f.signature
    → (bytes : Bytes) × (encode_epoch_rotate f ≡ ok bytes) × (decode_epoch_rotate bytes ≡ ok f)
encode_rotate_fits f h d s =
    let (bytes, e) = sealed in
    (
      bytes,
      e,
      subst (λ x. decode_epoch_rotate x ≡ ok f) (append-nil bytes)
          (decode-encode_epoch_rotate f bytes [] s e),
    )
  where
    sealed : (bytes : Bytes) × (encode_epoch_rotate f ≡ ok bytes)
    sealed =
        unfold encode_epoch_rotate in
        (
          (epoch_rotate ∷ [])
              ++ (pack_be 8 f.epoch_id
                  ++ (pack_be 4 f.epoch_duration
                      ++ (f.eph_pubkey ++ (f.prev_epoch_hash ++ f.signature)))),
          ground arith,
        )

pub encode_ack_fits :
    (f : EpochRotateAck)
    → f.epoch_id < 2 ^ 64
    → HasSizes f.eph_pubkey f.prev_epoch_hash f.signature
    → (bytes : Bytes) × (encode_epoch_rotate_ack f ≡ ok bytes)
      × (decode_epoch_rotate_ack bytes ≡ ok f)
encode_ack_fits f h s =
    let (bytes, e) = sealed in
    (
      bytes,
      e,
      subst (λ x. decode_epoch_rotate_ack x ≡ ok f) (append-nil bytes)
          (decode-encode_epoch_rotate_ack f bytes [] s e),
    )
  where
    sealed : (bytes : Bytes) × (encode_epoch_rotate_ack f ≡ ok bytes)
    sealed =
        unfold encode_epoch_rotate_ack in
        (
          (epoch_rotate_ack ∷ [])
              ++ (pack_be 8 f.epoch_id ++ (f.eph_pubkey ++ (f.prev_epoch_hash ++ f.signature))),
          ground arith,
        )

-- The acknowledgement on its way back.
abbrev pub pass_ack :
    Primitives
    → EpochManager
    → Bytes
    → ℕ
    → Result EpochError Bytes × EpochManager
    → Result EpochError (Unit {0}) × EpochManager × EpochManager
pass_ack c i prefix now (err e, r) = (err e, i, r)
pass_ack c i prefix now (ok bytes, r) =
    let (done, i') = handle_epoch_rotate_ack c i bytes prefix now in (done, i', r)

-- The rotation frame on its way to the responder, who draws the private key `b`.
abbrev pub pass_rotate :
    Primitives
    → EpochManager
    → Bytes
    → Bytes
    → Bytes
    → ℕ
    → ℕ
    → Result EpochError Bytes × EpochManager
    → Result EpochError (Unit {0}) × EpochManager × EpochManager
pass_rotate c r b prefix_i prefix_r now_i now_r (err e, i) = (err e, i, r)
pass_rotate c r b prefix_i prefix_r now_i now_r (ok bytes, i) =
    pass_ack c i prefix_i now_i (handle_epoch_rotate c r bytes b prefix_r now_r)

-- One rotation: how it ends, and both managers after it. The random nonce prefixes and the times
-- are arguments.
unfoldable pub rotate :
    Primitives
    → EpochManager
    → EpochManager
    → Bytes
    → Bytes
    → Bytes
    → Bytes
    → ℕ
    → ℕ
    → Result EpochError (Unit {0}) × EpochManager × EpochManager
rotate c i r a b prefix_i prefix_r now_i now_r =
    pass_rotate c r b prefix_i prefix_r now_i now_r (create_epoch_rotate c i a)
