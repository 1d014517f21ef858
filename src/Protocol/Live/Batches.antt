-- ===== src/Protocol/Live/Batches.antt =====
-- src/hokora/protocol/live.py, `flush_batches`: batches go out on their link, or by store and forward.
-- `batch` is the msgpack encoding of the events. `fallback` is there if both the LXMF router and
-- the session manager were given, and looks up an identity's destination.
use hokora.Base.{
  ℕ, Bool, false, ◌&&◌, Option, none, some, List, [], ◌∷◌, ◌++◌, ◌==◌, map, if◌then◌else◌,
}
use hokora.Base.Keys.{number_key, pair_key}
use hokora.Bytes.{Bytes}
use hokora.Dict.{Dict, lookup}
use hokora.Protocol.Live.{Links, Effect, lxmf_batch, LiveManager, get_subscribers, profile_batched}
use hokora.Protocol.Live.Pushing.{send}

-- A profile that takes batches, on a link that is alive.
abbrev pub takes_batch : Links → ℕ → Option ℕ → Bool
takes_batch links link none = false
takes_batch links link (some profile) =
    (profile == profile_batched) && (links.is_active link && links.sends link)

abbrev pub to_destination : Option ℕ → List Bytes → List Effect
to_destination none events = []
to_destination (some destination) events = lxmf_batch destination events ∷ []

unfoldable pub fall_back : Option (ℕ → Option ℕ) → Option ℕ → List Bytes → List Effect
fall_back none identity events = []
fall_back (some get_lxmf_destination) none events = []
fall_back (some get_lxmf_destination) (some identity) events =
    to_destination (get_lxmf_destination identity) events

abbrev pub payload_of : Bytes × ℕ → Bytes
payload_of (payload, time) = payload

unfoldable pub flush_one :
    Links
    → (List Bytes → Bytes)
    → Option (ℕ → Option ℕ)
    → LiveManager
    → ℕ
    → ℕ
    → List (Bytes × ℕ)
    → List Effect
flush_one links batch fallback m channel link [] = []
flush_one links batch fallback m channel link (e ∷ es) =
    let events = map payload_of (e ∷ es) in
    if takes_batch links link (lookup link (get_subscribers m channel))
    then send links link (batch events) ∷ []
    else fall_back fallback (lookup link m.link_identities) events

unfoldable pub flush_each :
    Links
    → (List Bytes → Bytes)
    → Option (ℕ → Option ℕ)
    → LiveManager
    → Dict (ℕ × ℕ) (List (Bytes × ℕ))
    → List Effect
flush_each links batch fallback m [] = []
flush_each links batch fallback m (((channel, link), events) ∷ buffers) =
    flush_one links batch fallback m channel link events
    ++ flush_each links batch fallback m buffers

unfoldable pub flush_batches :
    Links → (List Bytes → Bytes) → Option (ℕ → Option ℕ) → LiveManager → List Effect × LiveManager
flush_batches links batch fallback m =
    (flush_each links batch fallback m m.batch_buffer, record m { batch_buffer = [] })
