-- ===== src/Protocol/Wire.antt =====
-- src/hokora/protocol/wire.py: framing by a two-byte length, and the checks of a sync request and a
-- response. What msgpack makes of a dict is a parameter: `pack` for the dicts that the encoders
-- build, and `unpack` for bytes that may hold anything.
-- `node_time`, an optional key of a response, is left out.
pub mod Framing
mod Tests
use hokora.Base.{
  ℕ, ◌+◌, ◌≤◌, Bool, true, false, not, Option, none, some, List, [], ◌∷◌, ◌++◌, ltb, ◌==◌, length,
  drop, if◌then◌else◌,
}
use hokora.Bytes.{Bytes, pack_be, unpack_be, slice}
use hokora.Result.{Result, ok, err, ◌>>=◌, ◌>>◌, raise_if}

abbrev pub max_frame_size : ℕ
max_frame_size = 65535

abbrev pub nonce_size : ℕ
nonce_size = 16

-- The messages that `SyncError` carries.
pub data SyncError : Type 0 where
  too_large too_short length_mismatch : SyncError
  bad_nonce not_decoded not_a_dict no_action no_nonce : SyncError

unfoldable pub add_length_header : Bytes → Result SyncError Bytes
add_length_header bytes =
    if ltb max_frame_size (length bytes)
    then err too_large
    else ok (pack_be 2 (length bytes) ++ bytes)

unfoldable pub strip_length_header : Bytes → Result SyncError Bytes
strip_length_header bytes =
    if ltb (length bytes) 2
    then err too_short
    else if not (length (drop 2 bytes) == unpack_be (slice 0 2 bytes))
    then err length_mismatch
    else ok (drop 2 bytes)

-- A value of a dict: bytes, or anything else.
pub data Value : Type 0 where
  byte_string : Bytes → Value
  something : ℕ → Value

-- What unpacking returns: a dict, by the keys that the code reads, or another value.
pub data Unpacked : Type 0 where
  dict : Option ℕ → Option Value → Option ℕ → Unpacked
  other_value : Unpacked

-- msgpack, for the dicts with an action, a nonce and a payload.
pub record Msgpack : Type 0 where
  pub pack : Option ℕ → Bytes → Option ℕ → Bytes
  -- `none` where `unpackb` raises
  pub unpack : Bytes → Option Unpacked

unfoldable pub encode_sync_request : Msgpack → ℕ → Bytes → Option ℕ → Result SyncError Bytes
encode_sync_request p action nonce payload =
    if not (length nonce == nonce_size)
    then err bad_nonce
    else add_length_header (p.pack (some action) nonce payload)

abbrev pub checked_nonce : Value → Result SyncError Bytes
checked_nonce (byte_string nonce) = if length nonce == nonce_size then ok nonce else err bad_nonce
checked_nonce (something n) = err bad_nonce

-- A decoded request: action, nonce, payload.
abbrev pub check_request : Option Unpacked → Result SyncError (ℕ × (Bytes × Option ℕ))
check_request none = err not_decoded
check_request (some other_value) = err not_a_dict
check_request (some (dict none field payload)) = err no_action
check_request (some (dict (some action) none payload)) = err no_nonce
check_request (some (dict (some action) (some nonce) payload)) =
    checked_nonce nonce >>= (λ bytes. ok (action, (bytes, payload)))

unfoldable pub decode_sync_request : Msgpack → Bytes → Result SyncError (ℕ × (Bytes × Option ℕ))
decode_sync_request p bytes = strip_length_header bytes >>= (λ raw. check_request (p.unpack raw))

unfoldable pub encode_sync_response : Msgpack → Bytes → Option ℕ → Result SyncError Bytes
encode_sync_response p nonce payload = add_length_header (p.pack none nonce payload)

-- A decoded response: its nonce, of any type and length, and the data.
abbrev pub check_response : Option Unpacked → Result SyncError (Value × Option ℕ)
check_response none = err not_decoded
check_response (some other_value) = err not_a_dict
check_response (some (dict action none payload)) = err no_nonce
check_response (some (dict action (some nonce) payload)) = ok (nonce, payload)

unfoldable pub decode_sync_response : Msgpack → Bytes → Result SyncError (Value × Option ℕ)
decode_sync_response p bytes = strip_length_header bytes >>= (λ raw. check_response (p.unpack raw))
