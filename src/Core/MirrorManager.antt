-- ===== src/Core/MirrorManager.antt =====
-- src/hokora/core/mirror_manager.py: the cursors of mirrors and pushers in the table of peers. A column
-- that is null is the empty list or dict. The dict `sync_cursor` is two: the cursors of the mirrored
-- channels, and the dict under "_push".
pub mod Cursors
mod Tests
use hokora.Base.{
  ℕ, Bool, true, false, ◌||◌, ◌&&◌, Option, none, some, List, [], ◌∷◌, ◌++◌, ◌==◌, if◌then◌else◌,
}
use hokora.Base.Keys.{number_key}
use hokora.Dict.{Dict, lookup, lookup_or, insert}

pub record PeerRow : Type 0 where
  pub identity_hash : ℕ
  pub channels_mirrored : List ℕ
  pub mirror_cursors : Dict ℕ ℕ
  pub push_cursors : Dict ℕ ℕ

unfoldable pub mirrors_channel : ℕ → List ℕ → Bool
mirrors_channel channel [] = false
mirrors_channel channel (c ∷ cs) = c == channel || mirrors_channel channel cs

abbrev pub with_cursor : ℕ → ℕ → PeerRow → PeerRow
with_cursor channel cursor row = record row {
  mirror_cursors = insert channel cursor row.mirror_cursors;
}

-- The loop ends at the first peer that mirrors the channel.
unfoldable pub persist_cursor : ℕ → ℕ → List PeerRow → List PeerRow
persist_cursor channel cursor [] = []
persist_cursor channel cursor (row ∷ rows) =
    let rest = persist_cursor channel cursor rows in
    if mirrors_channel channel row.channels_mirrored
    then with_cursor channel cursor row ∷ rows
    else row ∷ rest

abbrev pub with_push_cursor : ℕ → ℕ → PeerRow → PeerRow
with_push_cursor channel cursor row = record row {
  push_cursors = insert channel cursor row.push_cursors;
}

unfoldable pub persist_push_cursor : ℕ → ℕ → ℕ → List PeerRow → List PeerRow
persist_push_cursor peer channel cursor [] = []
persist_push_cursor peer channel cursor (row ∷ rows) =
    let rest = persist_push_cursor peer channel cursor rows in
    if row.identity_hash == peer then with_push_cursor channel cursor row ∷ rows else row ∷ rest

-- `add_mirror_fn` is called with the peer, the channel and the cursor; the last is the cursor
-- that its pusher gets, if there is one.
pub record Loaded : Type 0 where
  pub peer : ℕ
  pub channel : ℕ
  pub initial_cursor : ℕ
  pub push_cursor : ℕ

unfoldable pub has_key : ℕ → ℕ → List (ℕ × ℕ) → Bool
has_key peer channel [] = false
has_key peer channel ((p, c) ∷ keys) = (p == peer && c == channel) || has_key peer channel keys

abbrev pub loaded : PeerRow → ℕ → Loaded
loaded row channel = record {
  peer = row.identity_hash;
  channel = channel;
  initial_cursor = lookup_or channel 0 row.mirror_cursors;
  push_cursor = lookup_or channel 0 row.push_cursors;
}

-- The call of `add_mirror_fn` adds the key of the mirror.
unfoldable pub load_channels : List (ℕ × ℕ) → PeerRow → List ℕ → List Loaded
load_channels keys row [] = []
load_channels keys row (channel ∷ channels) =
    let there = has_key row.identity_hash channel keys in
    let keys' = if there then keys else (row.identity_hash, channel) ∷ keys in
    let rest = load_channels keys' row channels in if there then rest else loaded row channel ∷ rest

-- `keys` are the mirrors that are there already. Peers have different hashes, so that their keys do
-- not meet.
unfoldable pub load_configured_mirrors : List (ℕ × ℕ) → List PeerRow → List Loaded
load_configured_mirrors keys [] = []
load_configured_mirrors keys (row ∷ rows) =
    load_channels keys row row.channels_mirrored ++ load_configured_mirrors keys rows
