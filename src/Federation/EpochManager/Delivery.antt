-- ===== src/Federation/EpochManager/Delivery.antt =====
-- Whatever one side seals, the other side opens, message after message.
use hokora.Base.{
  ℕ, ◌+◌, ◌^◌, ◌≤◌, ◌<◌, ◌≡◌, refl, ap, none, some, List, [], ◌∷◌, ◌++◌, arith, length, map,
}
use hokora.Bytes.{Bytes, pack_be}
use hokora.Result.{Result, ok, err}
use hokora.Federation.EpochWire.{EpochData, epoch_data, encode_epoch_data, decode_epoch_data}
use hokora.Federation.EpochWire.RoundTripData.{decode-encode_epoch_data}
use hokora.Federation.EpochCrypto.{Primitives, build_nonce}
use hokora.Federation.EpochManager.{EpochManager, EpochError, epoch_nonce_overflow}
use hokora.Federation.EpochManager.Sealing.{
  active_send_key, seal_frame, encrypt, open_frame, decrypt,
}
use hokora.Federation.EpochManager.Messages.{length-build_nonce}

-- What the code relies on of the AEAD: the key, nonce and associated data of a sealed text open it.
pub record IsAuthentic (c : Primitives) : Type 0 where
  pub opens :
      (key nonce text aad : Bytes)
      → c.aead_decrypt key nonce (c.aead_encrypt key nonce text aad) aad ≡ some text

-- `r` receives what `s` sends: one epoch, and one key, which is not empty.
pub record Paired (s r : EpochManager) : Type 0 where
  pub key_head : ℕ
  pub key_tail : Bytes
  pub sends : active_send_key s ≡ some (key_head ∷ key_tail)
  pub receives : r.recv_key ≡ some (key_head ∷ key_tail)
  pub same_epoch : r.current_epoch_id ≡ s.current_epoch_id
  pub epoch_fits : s.current_epoch_id < 2 ^ 64
  pub prefix_size : length s.nonce_prefix ≡ 16

-- A message on its way from `s` to `r`: what arrives, and both managers after it.
unfoldable pub deliver :
    Primitives
    → EpochManager
    → EpochManager
    → Bytes
    → Result EpochError Bytes × EpochManager × EpochManager
deliver c s r plaintext =
    let (sealed, s') = encrypt c s plaintext in
    elim sealed [
      | err e ↦ (err e, s', r)
      | ok bytes ↦ (let (opened, r') = decrypt c r bytes in (opened, s', r'))
    ]

abbrev pub deliver_all :
    Primitives → EpochManager → EpochManager → List Bytes → List (Result EpochError Bytes)
deliver_all c s r [] = []
deliver_all c s r (text ∷ texts) =
    let (got, s', r') = deliver c s r text in got ∷ deliver_all c s' r' texts

encode_fits :
    (f : EpochData) → f.epoch_id < 2 ^ 64 → (bytes : Bytes) × (encode_epoch_data f ≡ ok bytes)
unfolding encode_epoch_data
encode_fits f h =
    ((epoch_data ∷ []) ++ (pack_be 8 f.epoch_id ++ (f.nonce ++ f.ciphertext)), ground arith)

module _ (c : Primitives) (a : IsAuthentic c) {s r : EpochManager} (p : Paired s r) where
  open_frame-seal :
      (plaintext : Bytes)
      → open_frame c r (seal_frame c s (p.key_head ∷ p.key_tail) plaintext)
        ≡ (ok plaintext, record r { prev_recv_key = none })
  unfolding open_frame seal_frame
  open_frame-seal plaintext = ground (
    arith,
    p.receives,
    p.same_epoch,
    a.opens (p.key_head ∷ p.key_tail) (build_nonce s.nonce_prefix s.message_counter) plaintext
        (pack_be 8 s.current_epoch_id),
  )

  framed :
      (plaintext : Bytes)
      → let frame = seal_frame c s (p.key_head ∷ p.key_tail) plaintext in
        (bytes : Bytes) × (encode_epoch_data frame ≡ ok bytes)
        × (decode_epoch_data bytes ≡ ok frame)
  unfolding seal_frame
  framed plaintext =
      let frame = seal_frame c s (p.key_head ∷ p.key_tail) plaintext in
      let (bytes, sealed) = encode_fits frame p.epoch_fits in
      let size = length-build_nonce s.nonce_prefix s.message_counter p.prefix_size in
      (bytes, sealed, decode-encode_epoch_data frame bytes size sealed)

  -- What arrives, and both managers after the message.
  deliver_lem :
      (plaintext : Bytes)
      → s.message_counter < epoch_nonce_overflow
      → deliver c s r plaintext ≡ (
        ok plaintext,
        record s { message_counter = s.message_counter + 1 },
        record r { prev_recv_key = none },
      )
  unfolding deliver encrypt decrypt
  deliver_lem plaintext room =
      let (bytes, sealed, decoded) = framed plaintext in
      ground (arith, p.sends, sealed, decoded, open_frame-seal plaintext)

  still_paired :
      Paired
        (record s { message_counter = s.message_counter + 1 })
        (record r { prev_recv_key = none })
  still_paired = record {
    key_head = p.key_head;
    key_tail = p.key_tail;
    sends = p.sends;
    receives = p.receives;
    same_epoch = p.same_epoch;
    epoch_fits = p.epoch_fits;
    prefix_size = p.prefix_size;
  }

-- If the AEAD opens what it seals, every message that one of a pair of managers seals arrives at
-- the other, in order and unchanged, as long as the message counter does not pass its limit. A
-- pair has one epoch, one key that is not empty, and a nonce prefix of 16 bytes.
pub deliver_all_lem :
    (c : Primitives) (s r : EpochManager) (texts : List Bytes)
    → IsAuthentic c
    → Paired s r
    → s.message_counter + length texts ≤ epoch_nonce_overflow
    → deliver_all c s r texts ≡ map ok texts
deliver_all_lem c s r [] a p room = refl
deliver_all_lem c s r (text ∷ texts) a p room = rw (deliver_lem c a p text (omega arith)) (
    ap (λ l. ok text ∷ l)
      (deliver_all_lem c (record s { message_counter = s.message_counter + 1 })
        (record r { prev_recv_key = none }) texts a (still_paired c a p) (omega arith)))
