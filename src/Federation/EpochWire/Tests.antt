-- ===== src/Federation/EpochWire/Tests.antt =====
-- Runs of the epoch codec, and its theorems at concrete frames.
use hokora.Base.{◌≡◌, refl, [], ◌∷◌, ◌++◌, replicate}
use hokora.Result.{ok, err}
use hokora.Bytes.{Bytes, pack_be}
use hokora.Federation.EpochWire.{
  EpochRotate, EpochRotateAck, EpochData, encode_epoch_rotate, decode_epoch_rotate,
  encode_epoch_rotate_ack, decode_epoch_rotate_ack, encode_epoch_data, decode_epoch_data, too_short,
}
use hokora.Federation.EpochWire.RoundTrip.{HasSizes, decode-encode_epoch_rotate}
use hokora.Federation.EpochWire.RoundTripData.{
  decode-encode_epoch_rotate_ack, decode-encode_epoch_data,
}

abbrev rotate : EpochRotate
rotate = record {
  epoch_id = 258;
  epoch_duration = 3600;
  eph_pubkey = replicate 32 1;
  prev_epoch_hash = replicate 32 2;
  signature = replicate 64 3;
}

abbrev rotate_frame : Bytes
rotate_frame =
    0x20
    ∷ 0
    ∷ 0
    ∷ 0
    ∷ 0
    ∷ 0
    ∷ 0
    ∷ 1
    ∷ 2
    ∷ 0
    ∷ 0
    ∷ 14
    ∷ 16
    ∷ (replicate 32 1 ++ (replicate 32 2 ++ replicate 64 3))

rotate_frame_lem : encode_epoch_rotate rotate ≡ ok rotate_frame
unfolding encode_epoch_rotate pack_be
rotate_frame_lem = refl

rotate-sizes : HasSizes (replicate 32 1) (replicate 32 2) (replicate 64 3)
rotate-sizes = record { pubkey_size = refl; hash_size = refl; signature_size = refl }

decode-encode_epoch_rotate_at_input : decode_epoch_rotate (rotate_frame ++ 9 ∷ []) ≡ ok rotate
decode-encode_epoch_rotate_at_input =
    decode-encode_epoch_rotate rotate rotate_frame (9 ∷ []) rotate-sizes rotate_frame_lem

abbrev ack : EpochRotateAck
ack = record {
  epoch_id = 2;
  eph_pubkey = replicate 32 1;
  prev_epoch_hash = replicate 32 2;
  signature = replicate 64 3;
}

abbrev ack_frame : Bytes
ack_frame =
    0x21 ∷ 0 ∷ 0 ∷ 0 ∷ 0 ∷ 0 ∷ 0 ∷ 0 ∷ 2 ∷ (replicate 32 1 ++ (replicate 32 2 ++ replicate 64 3))

ack_frame_lem : encode_epoch_rotate_ack ack ≡ ok ack_frame
unfolding encode_epoch_rotate_ack pack_be
ack_frame_lem = refl

decode-encode_epoch_rotate_ack_at_input : decode_epoch_rotate_ack (ack_frame ++ []) ≡ ok ack
decode-encode_epoch_rotate_ack_at_input =
    decode-encode_epoch_rotate_ack ack ack_frame [] rotate-sizes ack_frame_lem

abbrev payload : EpochData
payload = record { epoch_id = 7; nonce = replicate 24 5; ciphertext = 1 ∷ 2 ∷ [] }

abbrev data_frame : Bytes
data_frame = 0x22 ∷ 0 ∷ 0 ∷ 0 ∷ 0 ∷ 0 ∷ 0 ∷ 0 ∷ 7 ∷ (replicate 24 5 ++ 1 ∷ 2 ∷ [])

data_frame_lem : encode_epoch_data payload ≡ ok data_frame
unfolding encode_epoch_data pack_be
data_frame_lem = refl

decode-encode_epoch_data_at_input : decode_epoch_data data_frame ≡ ok payload
decode-encode_epoch_data_at_input = decode-encode_epoch_data payload data_frame refl data_frame_lem

short_frame : decode_epoch_data (0x22 ∷ []) ≡ err too_short
unfolding decode_epoch_data
short_frame = refl
