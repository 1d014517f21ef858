-- ===== src/Federation/EpochWire.antt =====
-- src/hokora/federation/epoch_wire.py: the binary codec of the epoch frames 0x20, 0x21 and 0x22.
pub mod RoundTrip
pub mod RoundTripData
mod Tests
use hokora.Base.{
  ℕ, ◌^◌, ◌+◌, Bool, false, ◌||◌, List, [], ◌∷◌, ◌++◌, ltb, ◌==◌, not, length, drop, if◌then◌else◌,
}
use hokora.Result.{Result, ok, err}
use hokora.Bytes.{Bytes, pack_be, unpack_be, slice}

pub data WireError : Type 0 where
  struct_error too_short wrong_type : WireError

abbrev pub epoch_rotate : ℕ
epoch_rotate = 0x20

abbrev pub epoch_rotate_ack : ℕ
epoch_rotate_ack = 0x21

abbrev pub epoch_data : ℕ
epoch_data = 0x22

abbrev pub epoch_rotate_len : ℕ
epoch_rotate_len = 1 + 8 + 4 + 32 + 32 + 64

abbrev pub epoch_rotate_ack_len : ℕ
epoch_rotate_ack_len = 1 + 8 + 32 + 32 + 64

abbrev pub epoch_data_header_len : ℕ
epoch_data_header_len = 1 + 8 + 24

pub record EpochRotate : Type 0 where
  pub epoch_id : ℕ
  pub epoch_duration : ℕ
  pub eph_pubkey : Bytes
  pub prev_epoch_hash : Bytes
  pub signature : Bytes

pub record EpochRotateAck : Type 0 where
  pub epoch_id : ℕ
  pub eph_pubkey : Bytes
  pub prev_epoch_hash : Bytes
  pub signature : Bytes

pub record EpochData : Type 0 where
  pub epoch_id : ℕ
  pub nonce : Bytes
  pub ciphertext : Bytes

-- `struct.pack` raises where a field does not fit its width.
unfoldable pub encode_epoch_rotate : EpochRotate → Result WireError Bytes
encode_epoch_rotate f =
    if ltb f.epoch_id (2 ^ 64)
    then (if ltb f.epoch_duration (2 ^ 32)
        then ok (
            (epoch_rotate ∷ [])
            ++ (pack_be 8 f.epoch_id
                ++ (pack_be 4 f.epoch_duration
                    ++ (f.eph_pubkey ++ (f.prev_epoch_hash ++ f.signature)))))
        else err struct_error)
    else err struct_error

unfoldable pub rotate_fields : Bytes → EpochRotate
rotate_fields bytes = record {
  epoch_id = unpack_be (slice 1 8 bytes);
  epoch_duration = unpack_be (slice 9 4 bytes);
  eph_pubkey = slice 13 32 bytes;
  prev_epoch_hash = slice 45 32 bytes;
  signature = slice 77 64 bytes;
}

unfoldable pub decode_epoch_rotate : Bytes → Result WireError EpochRotate
decode_epoch_rotate bytes =
    if ltb (length bytes) epoch_rotate_len
    then err too_short
    else if not (unpack_be (slice 0 1 bytes) == epoch_rotate)
    then err wrong_type
    else ok (rotate_fields bytes)

unfoldable pub encode_epoch_rotate_ack : EpochRotateAck → Result WireError Bytes
encode_epoch_rotate_ack f =
    if ltb f.epoch_id (2 ^ 64)
    then ok (
        (epoch_rotate_ack ∷ [])
        ++ (pack_be 8 f.epoch_id ++ (f.eph_pubkey ++ (f.prev_epoch_hash ++ f.signature))))
    else err struct_error

unfoldable pub rotate_ack_fields : Bytes → EpochRotateAck
rotate_ack_fields bytes = record {
  epoch_id = unpack_be (slice 1 8 bytes);
  eph_pubkey = slice 9 32 bytes;
  prev_epoch_hash = slice 41 32 bytes;
  signature = slice 73 64 bytes;
}

unfoldable pub decode_epoch_rotate_ack : Bytes → Result WireError EpochRotateAck
decode_epoch_rotate_ack bytes =
    if ltb (length bytes) epoch_rotate_ack_len
    then err too_short
    else if not (unpack_be (slice 0 1 bytes) == epoch_rotate_ack)
    then err wrong_type
    else ok (rotate_ack_fields bytes)

unfoldable pub encode_epoch_data : EpochData → Result WireError Bytes
encode_epoch_data f =
    if ltb f.epoch_id (2 ^ 64)
    then ok ((epoch_data ∷ []) ++ (pack_be 8 f.epoch_id ++ (f.nonce ++ f.ciphertext)))
    else err struct_error

unfoldable pub data_fields : Bytes → EpochData
data_fields bytes = record {
  epoch_id = unpack_be (slice 1 8 bytes);
  nonce = slice 9 24 bytes;
  ciphertext = drop 33 bytes;
}

unfoldable pub decode_epoch_data : Bytes → Result WireError EpochData
decode_epoch_data bytes =
    if ltb (length bytes) epoch_data_header_len
    then err too_short
    else if not (unpack_be (slice 0 1 bytes) == epoch_data)
    then err wrong_type
    else ok (data_fields bytes)

unfoldable pub is_epoch_frame : Bytes → Bool
is_epoch_frame [] = false
is_epoch_frame (b ∷ bytes) = b == epoch_rotate || b == epoch_rotate_ack || b == epoch_data
