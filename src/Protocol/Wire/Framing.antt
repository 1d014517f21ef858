-- ===== src/Protocol/Wire/Framing.antt =====
-- Frames and requests come back from the decoders as they were encoded.
use hokora.Base.{
  ℕ, ◌+◌, ◌≤◌, ◌≡◌, refl, inl, inr, Option, none, some, [], ◌∷◌, ◌++◌, arith, ltb, ◌==◌, length,
  length-append, drop, Bool-cases,
}
use hokora.Bytes.{
  Bytes, pack_be, unpack_be, slice, slice-join, drop-join, join, unpack-pack, length-pack,
}
use hokora.Result.{ok}
use hokora.Protocol.Wire.{
  max_frame_size, nonce_size, add_length_header, strip_length_header, Msgpack, dict, byte_string,
  encode_sync_request, decode_sync_request, encode_sync_response, decode_sync_response,
}

module _ (bytes : Bytes) where
  header_read : slice 0 2 (pack_be 2 (length bytes) ++ bytes) ≡ pack_be 2 (length bytes)
  unfolding join
  header_read =
      slice-join 0 2 [] (pack_be 2 (length bytes)) bytes refl (length-pack 2 (length bytes))

  body_read : drop 2 (pack_be 2 (length bytes) ++ bytes) ≡ bytes
  unfolding join
  body_read =
      drop-join 2 (pack_be 2 (length bytes) ∷ []) bytes
        (omega (arith, length-pack 2 (length bytes)))

  framed_size : length (pack_be 2 (length bytes) ++ bytes) ≡ 2 + length bytes
  framed_size =
      omega (arith, length-append (pack_be 2 (length bytes)) bytes, length-pack 2 (length bytes))

  strip_framed :
      length bytes ≤ max_frame_size
      → strip_length_header (pack_be 2 (length bytes) ++ bytes) ≡ ok bytes
  unfolding strip_length_header
  strip_framed small =
      let size : unpack_be (pack_be 2 (length bytes)) ≡ length bytes =
        unpack-pack 2 (length bytes) (omega arith) in
      rw (header_read, body_read, size) (ground (arith, framed_size))

-- Only a payload of at most 65535 bytes is framed, and what is framed comes back from
-- `strip_length_header`.
pub strip-add_length_header :
    (bytes frame : Bytes)
    → add_length_header bytes ≡ ok frame
    → (length bytes ≤ max_frame_size) × (strip_length_header frame ≡ ok bytes)
unfolding add_length_header
strip-add_length_header bytes frame h = elim (Bool-cases (ltb max_frame_size (length bytes))) [
  | inl large ↦ absurd (ground arith)
  | inr small ↦
      (let size : length bytes ≤ max_frame_size = ground arith in
        let same : frame ≡ pack_be 2 (length bytes) ++ bytes = ground arith in
        (size, rw same (strip_framed bytes size)))
]

-- What the code relies on of msgpack: a packed dict unpacks to itself.
pub record IsMsgpack (p : Msgpack) : Type 0 where
  pub unpacks :
      (action : Option ℕ) (nonce : Bytes) (payload : Option ℕ)
      → p.unpack (p.pack action nonce payload)
        ≡ some (dict action (some (byte_string nonce)) payload)

-- A request that encode_sync_request returned has a nonce of 16 bytes and decodes to the action,
-- the nonce and the payload that went in.
pub decode-encode_sync_request :
    (p : Msgpack) (action : ℕ) (nonce : Bytes) (payload : Option ℕ) (frame : Bytes)
    → IsMsgpack p
    → encode_sync_request p action nonce payload ≡ ok frame
    → (length nonce ≡ 16) × (decode_sync_request p frame ≡ ok (action, (nonce, payload)))
unfolding encode_sync_request decode_sync_request
decode-encode_sync_request p action nonce payload frame m h =
    elim (Bool-cases (length nonce == nonce_size)) [
      | inr bad ↦ absurd (ground arith)
      | inl good ↦
          (let framed : add_length_header (p.pack (some action) nonce payload) ≡ ok frame =
              ground arith in
            let (size, back) =
              strip-add_length_header (p.pack (some action) nonce payload) frame framed in
            (ground arith, rw (back, m.unpacks (some action) nonce payload, good) refl))
    ]

-- A response that `encode_sync_response` returned decodes to its nonce, whatever its length, and
-- its data.
pub decode-encode_sync_response :
    (p : Msgpack) (nonce : Bytes) (payload : Option ℕ) (frame : Bytes)
    → IsMsgpack p
    → encode_sync_response p nonce payload ≡ ok frame
    → decode_sync_response p frame ≡ ok (byte_string nonce, payload)
unfolding encode_sync_response decode_sync_response
decode-encode_sync_response p nonce payload frame m h =
    let (size, back) = strip-add_length_header (p.pack none nonce payload) frame h in
    rw (back, m.unpacks none nonce payload) refl
