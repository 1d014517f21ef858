-- ===== src/Federation/EpochCrypto.antt =====
-- src/hokora/federation/epoch_crypto.py. X25519, HKDF, HMAC, the AEAD and the identities' signatures are
-- not part of the program: they are the fields of `Primitives`, and a call that raises returns
-- `none`. Random bytes are arguments of the calls that draw them.
use hokora.Base.{ℕ, Option, none, some, [], ◌∷◌, ◌++◌, take, drop}
use hokora.Bytes.{Bytes, pack_be}

pub record Primitives : Type 0 where
  -- `private_key.public_key().public_bytes_raw()`
  pub public_key : Bytes → Bytes
  -- `X25519PublicKey.from_public_bytes` and `exchange`
  pub exchange : Bytes → Bytes → Option Bytes
  -- `HKDF(...).derive(secret)` for an `info`
  pub hkdf : Bytes → Bytes → Bytes
  pub hmac : Bytes → Bytes → Bytes
  -- key, nonce, text, associated data
  pub aead_encrypt : Bytes → Bytes → Bytes → Bytes → Bytes
  pub aead_decrypt : Bytes → Bytes → Bytes → Bytes → Option Bytes

-- b"epoch", b"i2r", b"r2i", b"epoch_chain"
abbrev pub epoch_label : Bytes
epoch_label = 101 ∷ 112 ∷ 111 ∷ 99 ∷ 104 ∷ []

abbrev pub i2r_label : Bytes
i2r_label = 105 ∷ 50 ∷ 114 ∷ []

abbrev pub r2i_label : Bytes
r2i_label = 114 ∷ 50 ∷ 105 ∷ []

abbrev pub chain_label : Bytes
chain_label = 101 ∷ 112 ∷ 111 ∷ 99 ∷ 104 ∷ 95 ∷ 99 ∷ 104 ∷ 97 ∷ 105 ∷ 110 ∷ []

-- The initiator-to-responder key and the responder-to-initiator key.
unfoldable pub derive_epoch_keys : Primitives → Bytes → Bytes → ℕ → Option (Bytes × Bytes)
derive_epoch_keys c private remote epoch_id = elim (c.exchange private remote) [
  | none ↦ none
  | some secret ↦ some (
    c.hkdf secret (epoch_label ++ (pack_be 8 epoch_id ++ i2r_label)),
    c.hkdf secret (epoch_label ++ (pack_be 8 epoch_id ++ r2i_label)),
  )
]

unfoldable pub compute_chain_hash : Primitives → Bytes → Bytes
compute_chain_hash c epoch_key = c.hmac epoch_key chain_label

unfoldable pub build_nonce : Bytes → ℕ → Bytes
build_nonce prefix counter = prefix ++ pack_be 8 counter

-- b"epoch-key-wrap"
abbrev pub wrap_label : Bytes
wrap_label = 101 ∷ 112 ∷ 111 ∷ 99 ∷ 104 ∷ 45 ∷ 107 ∷ 101 ∷ 121 ∷ 45 ∷ 119 ∷ 114 ∷ 97 ∷ 112 ∷ []

-- `nonce` is what `os.urandom(24)` returns.
unfoldable pub wrap_key : Primitives → Bytes → Bytes → Bytes → Bytes
wrap_key c nonce kek key = nonce ++ c.aead_encrypt kek nonce key wrap_label

unfoldable pub unwrap_key : Primitives → Bytes → Bytes → Option Bytes
unwrap_key c kek wrapped = c.aead_decrypt kek (take 24 wrapped) (drop 24 wrapped) wrap_label
