-- ===== src/Federation/EpochManager/Messages.antt =====
-- What is sealed can be opened, and no nonce is used twice in an epoch.
use hokora.Base.{
  some_inj, ℕ, ◌+◌, ◌^◌, ◌≤◌, ◌<◌, ◌≡◌, ◌≢◌, refl, sym, ap, ◌∙◌, inl, inr, Option, none, some, [],
  ◌∷◌, arith, length, length-append, drop, Option-cases,
}
use hokora.Bytes.{Bytes, pack_be, unpack_be, unpack-pack, length-pack, drop-join, join}
use hokora.Result.{Result, ok, err}
use hokora.Federation.EpochWire.{WireError, EpochData, encode_epoch_data, decode_epoch_data}
use hokora.Federation.EpochWire.RoundTripData.{decode-encode_epoch_data}
use hokora.Federation.EpochCrypto.{Primitives, build_nonce}
use hokora.Federation.EpochManager.{EpochManager, epoch_nonce_overflow}
use hokora.Federation.EpochManager.Sealing.{
  active_send_key, seal_frame, encrypt, open_frame, decrypt,
}

pub length-build_nonce :
    (prefix : Bytes) (n : ℕ) → length prefix ≡ 16 → length (build_nonce prefix n) ≡ 24
unfolding build_nonce
length-build_nonce prefix n h = omega (arith, length-append prefix (pack_be 8 n), length-pack 8 n)

build_nonce_inj :
    (prefix : Bytes) (a b : ℕ)
    → length prefix ≡ 16
    → a < 2 ^ 64
    → b < 2 ^ 64
    → build_nonce prefix a ≡ build_nonce prefix b
    → a ≡ b
unfolding build_nonce join
build_nonce_inj prefix a b h ha hb e =
    sym (unpack-pack 8 a ha)
    ∙ ap unpack_be (
        sym (drop-join 16 (prefix ∷ []) (pack_be 8 a) (omega (arith, h)))
        ∙ (ap (drop 16) e ∙ drop-join 16 (prefix ∷ []) (pack_be 8 b) (omega (arith, h))))
    ∙ unpack-pack 8 b hb

-- The branch of `encrypt` that returns a frame.
module _ (c : Primitives) (m : EpochManager) (plaintext : Bytes) where
  encrypt_ok :
      {bytes : Bytes}
      → (encrypt c m plaintext).0 ≡ ok bytes
      → (key : Bytes) × (active_send_key m ≡ some key)
        × (m.message_counter < epoch_nonce_overflow)
        × (encode_epoch_data (seal_frame c m key plaintext) ≡ ok bytes)
        × ((encrypt c m plaintext).1 ≡ record m { message_counter = m.message_counter + 1 })
  unfolding encrypt
  encrypt_ok h = elim (Option-cases (active_send_key m)) [
    | inl e ↦ absurd (ground arith)
    | inr (key, e) ↦ (key, e, ground arith, ground arith, ground arith)
  ]

  encrypt_keeps :
      ((encrypt c m plaintext).1.nonce_prefix ≡ m.nonce_prefix)
      × (m.message_counter ≤ (encrypt c m plaintext).1.message_counter)
  unfolding encrypt
  encrypt_keeps = (ground arith, ground arith)

decrypt_keeps :
    (c : Primitives) (m : EpochManager) (bytes : Bytes)
    → ((decrypt c m bytes).1.nonce_prefix ≡ m.nonce_prefix)
      × ((decrypt c m bytes).1.message_counter ≡ m.message_counter)
unfolding decrypt open_frame
decrypt_keeps c m bytes = (ground arith, ground arith)

-- The nonce in a data frame.
abbrev pub nonce_of : Result WireError EpochData → Option Bytes
nonce_of (err e) = none
nonce_of (ok frame) = some frame.nonce

abbrev pub nonce_in : Bytes → Option Bytes
nonce_in bytes = nonce_of (decode_epoch_data bytes)

pub nonce_in-encrypt :
    (c : Primitives) (m : EpochManager) (plaintext bytes : Bytes)
    → length m.nonce_prefix ≡ 16
    → (encrypt c m plaintext).0 ≡ ok bytes
    → (nonce_in bytes ≡ some (build_nonce m.nonce_prefix m.message_counter))
      × (m.message_counter < epoch_nonce_overflow)
      × ((encrypt c m plaintext).1.message_counter ≡ m.message_counter + 1)
unfolding seal_frame
nonce_in-encrypt c m plaintext bytes h e =
    let (key, active, room, sealed, after) = encrypt_ok c m plaintext e in
    (
      ap nonce_of (
          decode-encode_epoch_data _ bytes (length-build_nonce m.nonce_prefix m.message_counter h)
            sealed),
      room,
      ap (λ (n : EpochManager). n.message_counter) after,
    )

-- What passes over a link within one epoch: frames sealed and frames opened, in any order.
pub data Traffic (c : Primitives) (m : EpochManager) : EpochManager → Type 0 where
  quiet : Traffic c m m
  sent :
      {n : EpochManager} (plaintext : Bytes) → Traffic c m n → Traffic c m (encrypt c n plaintext).1
  got : {n : EpochManager} (bytes : Bytes) → Traffic c m n → Traffic c m (decrypt c n bytes).1

Traffic_keeps :
    {c : Primitives} {m n : EpochManager}
    → Traffic c m n
    → (n.nonce_prefix ≡ m.nonce_prefix) × (m.message_counter ≤ n.message_counter)
Traffic_keeps quiet = (refl, omega arith)
Traffic_keeps {c} (sent {n = n} plaintext t) =
    let (same, le) = Traffic_keeps t in
    let (same', le') = encrypt_keeps c n plaintext in (same' ∙ same, omega arith)
Traffic_keeps {c} (got {n = n} bytes t) =
    let (same, le) = Traffic_keeps t in
    let (same', eq) = decrypt_keeps c n bytes in (same' ∙ same, omega arith)

-- Two frames that a manager with a 16-byte nonce prefix seals in one epoch carry different
-- nonces, whatever was sealed or opened in between.
pub nonces_differ :
    (c : Primitives) (m n : EpochManager) (first second frame frame' : Bytes)
    → length m.nonce_prefix ≡ 16
    → (encrypt c m first).0 ≡ ok frame
    → Traffic c (encrypt c m first).1 n
    → (encrypt c n second).0 ≡ ok frame'
    → nonce_in frame ≢ nonce_in frame'
nonces_differ c m n first second frame frame' h e t e' same =
    let (at, room, next) = nonce_in-encrypt c m first frame h e in
    let (kept, le) = Traffic_keeps t in
    let prefix : n.nonce_prefix ≡ m.nonce_prefix = kept ∙ (encrypt_keeps c m first).0 in
    let (at', room', next') =
      nonce_in-encrypt c n second frame' (ap (λ (b : Bytes). length b) prefix ∙ h) e' in
    let nonces : build_nonce m.nonce_prefix m.message_counter
        ≡ build_nonce m.nonce_prefix n.message_counter =
      some_inj (sym at ∙ (same ∙ at')) ∙ ap (λ p. build_nonce p n.message_counter) prefix in
    let counters = build_nonce_inj m.nonce_prefix _ _ h (omega arith) (omega arith) nonces in
    omega arith
