-- ===== src/Federation/EpochManager/Sealing.antt =====
-- src/hokora/federation/epoch_manager.py, `encrypt` and `decrypt`.
use hokora.Base.{◌+◌, Bool, true, false, Option, none, some, [], ◌∷◌, leb, ◌==◌, if◌then◌else◌}
use hokora.Bytes.{Bytes, pack_be}
use hokora.Result.{Result, ok, err}
use hokora.Federation.EpochWire.{EpochData, encode_epoch_data, decode_epoch_data}
use hokora.Federation.EpochCrypto.{Primitives, build_nonce}
use hokora.Federation.EpochManager.{
  EpochManager, EpochError, wire, no_active_epoch, nonce_overflow, no_key, crypto_failure,
  epoch_nonce_overflow, is_some, or_raise, from_wire,
}

-- `is_active` and the send key in one: the branch that `encrypt` takes.
abbrev pub active_send_key : EpochManager → Option Bytes
active_send_key m = if is_some m.recv_key then m.send_key else none

unfoldable pub seal_frame : Primitives → EpochManager → Bytes → Bytes → EpochData
seal_frame c m key plaintext =
    let nonce = build_nonce m.nonce_prefix m.message_counter in
    record {
      epoch_id = m.current_epoch_id;
      nonce = nonce;
      ciphertext = c.aead_encrypt key nonce plaintext (pack_be 8 m.current_epoch_id);
    }

unfoldable pub encrypt : Primitives → EpochManager → Bytes → Result EpochError Bytes × EpochManager
encrypt c m plaintext = elim (active_send_key m) [
  | none ↦ (err no_active_epoch, m)
  | some key ↦
      (if leb epoch_nonce_overflow m.message_counter then (err nonce_overflow, m) else (
        from_wire (encode_epoch_data (seal_frame c m key plaintext)),
        record m { message_counter = m.message_counter + 1 },
      ))
]

-- `epoch_id == wanted and key`: a key that is not set, or empty, is passed over.
abbrev pub usable_key : Bool → Option Bytes → Option Bytes
usable_key true (some (b ∷ bs)) = some (b ∷ bs)
usable_key true (some []) = none
usable_key true none = none
usable_key false key = none

unfoldable pub open_frame :
    Primitives → EpochManager → EpochData → Result EpochError Bytes × EpochManager
open_frame c m frame =
    let aad = pack_be 8 frame.epoch_id in
    elim (usable_key (frame.epoch_id == m.current_epoch_id) m.recv_key) [
      | some key ↦ elim (c.aead_decrypt key frame.nonce frame.ciphertext aad) [
        | none ↦ (err crypto_failure, m)
        | some plaintext ↦ (ok plaintext, record m { prev_recv_key = none })
      ]
      | none ↦ elim (usable_key (frame.epoch_id == m.prev_epoch_id) m.prev_recv_key) [
        | some key ↦
            (or_raise (c.aead_decrypt key frame.nonce frame.ciphertext aad) crypto_failure, m)
        | none ↦ (err no_key, m)
      ]
    ]

unfoldable pub decrypt : Primitives → EpochManager → Bytes → Result EpochError Bytes × EpochManager
decrypt c m bytes = elim (decode_epoch_data bytes) [
  | err e ↦ (err (wire e), m)
  | ok frame ↦ open_frame c m frame
]
