-- ===== src/Protocol/Wire/Tests.antt =====
-- Frames and requests over a toy packing.
use hokora.Base.{ℕ, zero, suc, ◌≤◌, ◌≡◌, refl, Option, none, some, [], ◌∷◌, ◌++◌, length, replicate}
use hokora.Bytes.{Bytes, pack_be, slice, unpack_from}
use hokora.Result.{ok, err}
use hokora.Protocol.Wire.{
  length_mismatch, bad_nonce, max_frame_size, add_length_header, strip_length_header, Msgpack,
  Unpacked, dict, byte_string, encode_sync_request, decode_sync_request, encode_sync_response,
  decode_sync_response,
}
use hokora.Protocol.Wire.Framing.{
  IsMsgpack, strip-add_length_header, decode-encode_sync_request, decode-encode_sync_response,
}

abbrev packed : Option ℕ → Bytes
packed none = 0 ∷ []
packed (some n) = 1 ∷ n ∷ []

-- The bytes are an action, a payload and a nonce.
abbrev payload_then_nonce : Option ℕ → Bytes → Option Unpacked
payload_then_nonce action [] = none
payload_then_nonce action (zero ∷ nonce) = some (dict action (some (byte_string nonce)) none)
payload_then_nonce action (suc k ∷ []) = none
payload_then_nonce action (suc k ∷ n ∷ nonce) =
    some (dict action (some (byte_string nonce)) (some n))

abbrev toy_unpack : Bytes → Option Unpacked
toy_unpack [] = none
toy_unpack (zero ∷ rest) = payload_then_nonce none rest
toy_unpack (suc k ∷ []) = none
toy_unpack (suc k ∷ n ∷ rest) = payload_then_nonce (some n) rest

abbrev toy : Msgpack
toy = record {
  pack = λ action nonce payload. packed action ++ (packed payload ++ nonce);
  unpack = toy_unpack;
}

toy_unpacks :
    (action : Option ℕ) (nonce : Bytes) (payload : Option ℕ)
    → toy.unpack (toy.pack action nonce payload)
      ≡ some (dict action (some (byte_string nonce)) payload)
toy_unpacks none nonce none = refl
toy_unpacks none nonce (some n) = refl
toy_unpacks (some a) nonce none = refl
toy_unpacks (some a) nonce (some n) = refl

toy-IsMsgpack : IsMsgpack toy
toy-IsMsgpack = record { unpacks = toy_unpacks }

abbrev nonce : Bytes
nonce = replicate 16 4

decode-encode_sync_request_at_input :
    (length nonce ≡ 16)
    × (decode_sync_request toy (0 ∷ 19 ∷ 1 ∷ 2 ∷ 0 ∷ nonce) ≡ ok (2, (nonce, none)))
decode-encode_sync_request_at_input =
    decode-encode_sync_request toy 2 nonce none (0 ∷ 19 ∷ 1 ∷ 2 ∷ 0 ∷ nonce) toy-IsMsgpack
      (unfold encode_sync_request add_length_header pack_be in refl)

decode-encode_sync_response_at_input :
    decode_sync_response toy (0 ∷ 4 ∷ 0 ∷ 1 ∷ 6 ∷ 9 ∷ []) ≡ ok (byte_string (9 ∷ []), some 6)
decode-encode_sync_response_at_input =
    decode-encode_sync_response toy (9 ∷ []) (some 6) (0 ∷ 4 ∷ 0 ∷ 1 ∷ 6 ∷ 9 ∷ []) toy-IsMsgpack
      (unfold encode_sync_response add_length_header pack_be in refl)

short_nonce : encode_sync_request toy 2 (4 ∷ []) none ≡ err bad_nonce
unfolding encode_sync_request
short_nonce = refl

strip-add_length_header_at_input :
    (3 ≤ max_frame_size) × (strip_length_header (0 ∷ 3 ∷ 7 ∷ 8 ∷ 9 ∷ []) ≡ ok (7 ∷ 8 ∷ 9 ∷ []))
strip-add_length_header_at_input =
    strip-add_length_header (7 ∷ 8 ∷ 9 ∷ []) (0 ∷ 3 ∷ 7 ∷ 8 ∷ 9 ∷ [])
      (unfold add_length_header pack_be in refl)

too_long : strip_length_header (0 ∷ 2 ∷ 7 ∷ 8 ∷ 9 ∷ []) ≡ err length_mismatch
unfolding strip_length_header slice unpack_from
too_long = refl
