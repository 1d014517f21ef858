-- ===== src/Federation/EpochManager.antt =====
-- src/hokora/federation/epoch_manager.py: the epochs of one federation link. A method returns the
-- manager beside its result, also where it raises. An erased key is one that the manager no longer
-- holds. The timer of the rotation loop is left out; its `on_send` is the frame that
-- `create_epoch_rotate` returns.
pub mod Sealing
pub mod Delivery
pub mod Handshake
pub mod Agreement
pub mod Messages
pub mod Restart
pub mod Progress
mod Tests
use hokora.Base.{
  ℕ, ◌+◌, ◌^◌, Bool, true, false, not, ◌&&◌, Option, none, some, List, [], ◌∷◌, ◌++◌, ltb, leb,
  ◌==◌, if◌then◌else◌,
}
use hokora.Base.Keys.{◌≟◌, bytes_key}
use hokora.Bytes.{Bytes, pack_be}
use hokora.Result.{Result, ok, err, ◌>>=◌, ◌>>◌, raise_if}
use hokora.Federation.EpochWire.{
  WireError, EpochRotate, EpochRotateAck, EpochData, encode_epoch_rotate, decode_epoch_rotate,
  encode_epoch_rotate_ack, decode_epoch_rotate_ack, encode_epoch_data, decode_epoch_data,
}
use hokora.Federation.EpochCrypto.{Primitives, derive_epoch_keys, compute_chain_hash, build_nonce}

abbrev pub epoch_nonce_overflow : ℕ
epoch_nonce_overflow = 2 ^ 63

pub data EpochError : Type 0 where
  wire : WireError → EpochError
  no_peer_identity bad_signature regression chain_mismatch no_pending : EpochError
  no_active_epoch nonce_overflow no_key crypto_failure : EpochError

pub record EpochManager : Type 0 where
  pub is_initiator : Bool
  -- `local_rns_identity.sign` and `peer_rns_identity.validate`
  pub sign : Bytes → Bytes
  pub peer_validate : Option (Bytes → Bytes → Bool)
  pub epoch_duration : ℕ
  pub current_epoch_id : ℕ
  pub send_key : Option Bytes
  pub recv_key : Option Bytes
  pub prev_recv_key : Option Bytes
  pub prev_epoch_id : ℕ
  pub nonce_prefix : Bytes
  pub message_counter : ℕ
  pub last_chain_hash : Bytes
  pub epoch_start_time : ℕ
  pub pending_private_key : Option Bytes
  pub pending_public_key : Bytes
  pub torn_down : Bool

abbrev pub is_some {ℓ} : {A : Type ℓ} → Option A → Bool
is_some none = false
is_some (some a) = true

abbrev pub or_raise {ℓ} : {A : Type ℓ} → Option A → EpochError → Result EpochError A
or_raise none e = err e
or_raise (some a) e = ok a

abbrev pub from_wire {ℓ} : {A : Type ℓ} → Result WireError A → Result EpochError A
from_wire (err e) = err (wire e)
from_wire (ok a) = ok a

unfoldable pub is_active : EpochManager → Bool
is_active m = is_some m.send_key && is_some m.recv_key

-- What a rotation frame and an acknowledgement are signed over.
unfoldable pub rotate_signed : ℕ → ℕ → Bytes → Bytes → Bytes
rotate_signed epoch_id duration pubkey chain_hash =
    pack_be 8 epoch_id ++ (pack_be 4 duration ++ (pubkey ++ chain_hash))

unfoldable pub ack_signed : ℕ → Bytes → Bytes → Bytes
ack_signed epoch_id pubkey chain_hash = pack_be 8 epoch_id ++ (pubkey ++ chain_hash)

unfoldable pub rotate_frame : Primitives → EpochManager → Bytes → EpochRotate
rotate_frame c m private = record {
  epoch_id = m.current_epoch_id + 1;
  epoch_duration = m.epoch_duration;
  eph_pubkey = c.public_key private;
  prev_epoch_hash = m.last_chain_hash;
  signature = m.sign (
      rotate_signed (m.current_epoch_id + 1) m.epoch_duration (c.public_key private)
        m.last_chain_hash);
}

-- The key pair is pending also where `struct.pack` then raises.
unfoldable pub create_epoch_rotate :
    Primitives → EpochManager → Bytes → Result EpochError Bytes × EpochManager
create_epoch_rotate c m private = (
  from_wire (encode_epoch_rotate (rotate_frame c m private)),
  record m { pending_private_key = some private; pending_public_key = c.public_key private },
)

-- `i2r_key_bytes or bytes(send_key)`
abbrev pub chain_key : Bytes → Bytes → Bytes
chain_key [] send_key = send_key
chain_key (b ∷ bs) send_key = b ∷ bs

unfoldable pub activate_epoch :
    Primitives → EpochManager → ℕ → Bytes → Bytes → Bytes → Bytes → ℕ → EpochManager
activate_epoch c m epoch_id send_key recv_key i2r_key prefix now = record m {
  prev_recv_key = m.recv_key;
  prev_epoch_id = m.current_epoch_id;
  current_epoch_id = epoch_id;
  send_key = some send_key;
  recv_key = some recv_key;
  nonce_prefix = prefix;
  message_counter = 0;
  last_chain_hash = compute_chain_hash c (chain_key i2r_key send_key);
  epoch_start_time = now;
}

-- The checks of `handle_epoch_rotate`, in their order, and the keys.
unfoldable pub check_rotate :
    Primitives → EpochManager → Bytes → Bytes → Result EpochError (EpochRotate × (Bytes × Bytes))
check_rotate c m bytes private = do
  frame ← from_wire (decode_epoch_rotate bytes)
  validate ← or_raise m.peer_validate no_peer_identity
  raise_if
      (not (
        validate frame.signature (
          rotate_signed frame.epoch_id frame.epoch_duration frame.eph_pubkey
            frame.prev_epoch_hash)))
      bad_signature
  raise_if (leb frame.epoch_id m.current_epoch_id) regression
  raise_if (not (frame.prev_epoch_hash ≟ m.last_chain_hash)) chain_mismatch
  keys ← or_raise (derive_epoch_keys c private frame.eph_pubkey frame.epoch_id) crypto_failure
  ok (frame, keys)

unfoldable pub ack_frame : Primitives → EpochManager → ℕ → Bytes → EpochRotateAck
ack_frame c m epoch_id private = record {
  epoch_id = epoch_id;
  eph_pubkey = c.public_key private;
  prev_epoch_hash = m.last_chain_hash;
  signature = m.sign (ack_signed epoch_id (c.public_key private) m.last_chain_hash);
}

-- The responder sends with the r2i key and receives with the i2r key.
unfoldable pub accept_rotate :
    Primitives
    → EpochManager
    → Bytes
    → Bytes
    → ℕ
    → Result EpochError (EpochRotate × (Bytes × Bytes))
    → Result EpochError Bytes × EpochManager
accept_rotate c m private prefix now (err e) = (err e, m)
accept_rotate c m private prefix now (ok (frame, (i2r, r2i))) =
    let m' = activate_epoch c m frame.epoch_id r2i i2r i2r prefix now in
    (from_wire (encode_epoch_rotate_ack (ack_frame c m' frame.epoch_id private)), m')

unfoldable pub handle_epoch_rotate :
    Primitives → EpochManager → Bytes → Bytes → Bytes → ℕ → Result EpochError Bytes × EpochManager
handle_epoch_rotate c m bytes private prefix now =
    accept_rotate c m private prefix now (check_rotate c m bytes private)

unfoldable pub check_ack :
    Primitives → EpochManager → Bytes → Result EpochError (EpochRotateAck × (Bytes × Bytes))
check_ack c m bytes = do
  frame ← from_wire (decode_epoch_rotate_ack bytes)
  validate ← or_raise m.peer_validate no_peer_identity
  raise_if
      (not (
        validate frame.signature
          (ack_signed frame.epoch_id frame.eph_pubkey frame.prev_epoch_hash)))
      bad_signature
  private ← or_raise m.pending_private_key no_pending
  keys ← or_raise (derive_epoch_keys c private frame.eph_pubkey frame.epoch_id) crypto_failure
  ok (frame, keys)

-- The initiator sends with the i2r key, and forgets the pending key pair.
unfoldable pub accept_ack :
    Primitives
    → EpochManager
    → Bytes
    → ℕ
    → Result EpochError (EpochRotateAck × (Bytes × Bytes))
    → Result EpochError (Unit {0}) × EpochManager
accept_ack c m prefix now (err e) = (err e, m)
accept_ack c m prefix now (ok (frame, (i2r, r2i))) =
    let m' = activate_epoch c m frame.epoch_id i2r r2i i2r prefix now in
    (ok tt, record m' { pending_private_key = none; pending_public_key = [] })

unfoldable pub handle_epoch_rotate_ack :
    Primitives → EpochManager → Bytes → Bytes → ℕ → Result EpochError (Unit {0}) × EpochManager
handle_epoch_rotate_ack c m bytes prefix now = accept_ack c m prefix now (check_ack c m bytes)

unfoldable pub teardown : EpochManager → EpochManager
teardown m = record m {
  torn_down = true;
  send_key = none;
  recv_key = none;
  prev_recv_key = none;
  pending_private_key = none;
}
