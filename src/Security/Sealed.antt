-- ===== src/Security/Sealed.antt =====
-- src/hokora/security/sealed.py: the group keys of sealed channels. AES-GCM is the record `Gcm`; a call
-- of it that raises returns `none`. Random bytes are arguments. The lock is held wherever the
-- dicts are used.
pub mod Loading
pub mod Histories
pub mod Retained
pub mod Rotations
pub mod Gates
mod Tests
use hokora.Base.{
  ℕ, ◌+◌, ◌-◌, Bool, true, false, not, ◌&&◌, Option, none, some, List, [], ◌∷◌, ◌++◌, ltb, leb,
  ◌==◌, length, take, drop, if◌then◌else◌,
}
use hokora.Base.Keys.{number_key}
use hokora.Bytes.{Bytes}
use hokora.Text.{Text, utf8}
use hokora.Dict.{Dict, lookup, lookup_or, insert}
use hokora.Result.{Result, ok, err}
use hokora.Db.{Channel}

abbrev pub max_previous_keys : ℕ
max_previous_keys = 5

pub record Gcm : Type 0 where
  -- key, nonce, text, associated data
  pub gcm_encrypt : Bytes → Bytes → Bytes → Bytes → Bytes
  pub gcm_decrypt : Bytes → Bytes → Bytes → Bytes → Option Bytes
  -- `channel_id.encode("utf-8")`
  pub encode_id : ℕ → Bytes

pub data SealedChannelError : Type 0 where
  no_key epoch_unavailable invalid_tag : SealedChannelError
  needs_ciphertext : SealedChannelError

pub record KeyInfo : Type 0 where
  pub key : Bytes
  pub epoch : ℕ

pub record SealedChannelManager : Type 0 where
  pub keys : Dict ℕ KeyInfo
  pub previous_keys : Dict ℕ (List KeyInfo)

abbrev pub no_keys : SealedChannelManager
no_keys = record { keys = []; previous_keys = [] }

abbrev pub epoch_of : Option KeyInfo → ℕ
epoch_of none = 0
epoch_of (some info) = info.epoch

unfoldable pub get_epoch : SealedChannelManager → ℕ → ℕ
get_epoch m channel = epoch_of (lookup channel m.keys)

abbrev pub key_of : Option KeyInfo → Option Bytes
key_of none = none
key_of (some info) = some info.key

unfoldable pub get_key : SealedChannelManager → ℕ → Option Bytes
get_key m channel = key_of (lookup channel m.keys)

-- `key` is the key that is drawn.
unfoldable pub generate_key : SealedChannelManager → ℕ → Bytes → (Bytes × ℕ) × SealedChannelManager
generate_key m channel key =
    let epoch = epoch_of (lookup channel m.keys) + 1 in
    ((key, epoch), record m { keys = insert channel (record { key = key; epoch = epoch }) m.keys })

abbrev pub encrypt_with :
    Gcm → Option KeyInfo → ℕ → Bytes → Bytes → Result SealedChannelError (Bytes × Bytes × ℕ)
encrypt_with g none channel nonce plaintext = err no_key
encrypt_with g (some info) channel nonce plaintext =
    ok (nonce, g.gcm_encrypt info.key nonce plaintext (g.encode_id channel), info.epoch)

unfoldable pub encrypt :
    Gcm → SealedChannelManager → ℕ → Bytes → Bytes → Result SealedChannelError (Bytes × Bytes × ℕ)
encrypt g m channel nonce plaintext = encrypt_with g (lookup channel m.keys) channel nonce plaintext

unfoldable pub find_epoch : ℕ → List KeyInfo → Option KeyInfo
find_epoch epoch [] = none
find_epoch epoch (p ∷ ps) = if p.epoch == epoch then some p else find_epoch epoch ps

-- The key for an epoch: the active one for none or its own, else one of the retained.
abbrev pub pick_key : Option ℕ → KeyInfo → List KeyInfo → Option KeyInfo
pick_key none info previous = some info
pick_key (some epoch) info previous =
    if epoch == info.epoch then some info else find_epoch epoch previous

abbrev pub opened : Option Bytes → Result SealedChannelError Bytes
opened none = err invalid_tag
opened (some text) = ok text

abbrev pub decrypt_under :
    Gcm → Option KeyInfo → ℕ → Bytes → Bytes → Result SealedChannelError Bytes
decrypt_under g none channel nonce ciphertext = err epoch_unavailable
decrypt_under g (some info) channel nonce ciphertext =
    opened (g.gcm_decrypt info.key nonce ciphertext (g.encode_id channel))

abbrev pub decrypt_with :
    Gcm
    → Option KeyInfo
    → List KeyInfo
    → ℕ
    → Bytes
    → Bytes
    → Option ℕ
    → Result SealedChannelError Bytes
decrypt_with g none previous channel nonce ciphertext epoch = err no_key
decrypt_with g (some info) previous channel nonce ciphertext epoch =
    decrypt_under g (pick_key epoch info previous) channel nonce ciphertext

unfoldable pub decrypt :
    Gcm → SealedChannelManager → ℕ → Bytes → Bytes → Option ℕ → Result SealedChannelError Bytes
decrypt g m channel nonce ciphertext epoch =
    decrypt_with g (lookup channel m.keys) (lookup_or channel [] m.previous_keys) channel nonce
      ciphertext epoch

-- `history[-_MAX_PREVIOUS_KEYS:]`, where there are more
unfoldable pub trimmed : List KeyInfo → List KeyInfo
trimmed history =
    if ltb max_previous_keys (length history)
    then drop (length history - max_previous_keys) history
    else history

abbrev pub retire : SealedChannelManager → ℕ → Option KeyInfo → SealedChannelManager
retire m channel none = m
retire m channel (some info) = record m {
  previous_keys =
      insert channel (trimmed (lookup_or channel [] m.previous_keys ++ info ∷ [])) m.previous_keys;
}

unfoldable pub rotate_key : SealedChannelManager → ℕ → Bytes → (Bytes × ℕ) × SealedChannelManager
unfolding generate_key trimmed
rotate_key m channel key = generate_key (retire m channel (lookup channel m.keys)) channel key
