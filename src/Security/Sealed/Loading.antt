-- ===== src/Security/Sealed/Loading.antt =====
-- src/hokora/security/sealed.py: storing the keys of sealed channels, and loading them at a start. The
-- node's RNS identity is `NodeIdentity`; a call of it that raises returns `none`.
use hokora.Base.{
  ℕ, ◌+◌, ◌&&◌, Option, none, some, List, [], ◌∷◌, ◌++◌, ltb, ◌==◌, take, if◌then◌else◌,
}
use hokora.Base.Keys.{number_key}
use hokora.Bytes.{Bytes}
use hokora.Dict.{lookup, insert}
use hokora.Result.{Result, ok, err}
use hokora.Db.{Channel}
use hokora.Security.Sealed.{
  no_key, max_previous_keys, SealedChannelError, KeyInfo, SealedChannelManager,
}

-- A row of `sealed_keys`.
pub record SealedKey : Type 0 where
  pub channel_id : ℕ
  pub epoch : ℕ
  pub encrypted_key_blob : Bytes
  pub identity_hash : ℕ

pub record NodeIdentity : Type 0 where
  pub hexhash : ℕ
  pub encrypt_key : Bytes → Bytes
  pub decrypt_key : Bytes → Option Bytes

abbrev pub persist_info :
    NodeIdentity
    → Option KeyInfo
    → ℕ
    → List SealedKey
    → Result SealedChannelError (Unit {0}) × List SealedKey
persist_info node none channel rows = (err no_key, rows)
persist_info node (some info) channel rows = (
  ok tt,
  rows
      ++ (record {
        channel_id = channel;
        epoch = info.epoch;
        encrypted_key_blob = node.encrypt_key info.key;
        identity_hash = node.hexhash;
      })
        ∷ [],
)

unfoldable pub persist_key :
    NodeIdentity
    → SealedChannelManager
    → ℕ
    → List SealedKey
    → Result SealedChannelError (Unit {0}) × List SealedKey
persist_key node m channel rows = persist_info node (lookup channel m.keys) channel rows

-- `ORDER BY epoch DESC`
unfoldable pub insert_key_row : SealedKey → List SealedKey → List SealedKey
insert_key_row row [] = row ∷ []
insert_key_row row (x ∷ xs) =
    let rest = insert_key_row row xs in if ltb x.epoch row.epoch then row ∷ x ∷ xs else x ∷ rest

unfoldable pub key_rows : ℕ → ℕ → List SealedKey → List SealedKey
unfolding insert_key_row
key_rows channel owner [] = []
key_rows channel owner (row ∷ rows) =
    let rest = key_rows channel owner rows in
    if row.channel_id == channel && row.identity_hash == owner
    then insert_key_row row rest
    else rest

abbrev pub push_key : Option Bytes → ℕ → List KeyInfo → List KeyInfo
push_key none epoch history = history
push_key (some key) epoch history = history ++ record { key = key; epoch = epoch } ∷ []

-- The prior epochs, oldest first, less those that do not decrypt.
unfoldable pub load_history : NodeIdentity → List SealedKey → List KeyInfo
load_history node [] = []
load_history node (row ∷ rows) =
    push_key (node.decrypt_key row.encrypted_key_blob) row.epoch (load_history node rows)

abbrev pub store_history : ℕ → List KeyInfo → SealedChannelManager → SealedChannelManager
store_history channel [] m = m
store_history channel (p ∷ ps) m = record m {
  previous_keys = insert channel (p ∷ ps) m.previous_keys;
}

abbrev pub load_current :
    NodeIdentity
    → ℕ
    → Option Bytes
    → ℕ
    → List SealedKey
    → SealedChannelManager
    → SealedChannelManager
load_current node channel none epoch rows m = m
load_current node channel (some key) epoch rows m =
    store_history channel (load_history node rows)
      (record m { keys = insert channel (record { key = key; epoch = epoch }) m.keys })

abbrev pub load_rows :
    NodeIdentity → ℕ → List SealedKey → SealedChannelManager → SealedChannelManager
load_rows node channel [] m = m
load_rows node channel (row ∷ rows) m =
    load_current node channel (node.decrypt_key row.encrypted_key_blob) row.epoch rows m

unfoldable pub load_keys :
    NodeIdentity → List SealedKey → List Channel → SealedChannelManager → SealedChannelManager
unfolding key_rows load_history
load_keys node rows [] m = m
load_keys node rows (ch ∷ channels) m = load_keys node rows channels (
    if ch.sealed
    then load_rows node ch.id (take (max_previous_keys + 1) (key_rows ch.id node.hexhash rows)) m
    else m)
