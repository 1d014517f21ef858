-- ===== src/Protocol/Live.antt =====
-- src/hokora/protocol/live.py: live subscriptions and pushes. A link is the number that `id(link)`
-- returns, as if no number were used again; what RNS does with a link is a parameter, `Links`. A
-- method returns the manager beside what it sends. The events' encodings are arguments, and an
-- exception of the hook is swallowed by the code and has no effect here.
pub mod Pushing
pub mod Batches
pub mod Limits
pub mod Runs
pub mod Accounts
pub mod Death
mod Tests
use hokora.Base.{
  ℕ, ◌+◌, ◌-◌, ◌≤◌, Bool, true, false, not, ◌&&◌, ◌||◌, Option, none, some, List, [], ◌∷◌, ◌++◌,
  ltb, leb, ◌==◌, length, drop, if◌then◌else◌,
}
use hokora.Base.Keys.{number_key, pair_key}
use hokora.Bytes.{Bytes}
use hokora.Dict.{Dict, lookup, contains, insert, erase, lookup_or}
use hokora.Protocol.ZombieLinkBuffer.{
  Push, ZombieLinkPushBuffer, record_push, drain, new_buffer, default_retention,
  default_per_link_cap,
}

abbrev pub max_subscribers_per_channel : ℕ
max_subscribers_per_channel = 100

abbrev pub max_total_subscribers : ℕ
max_total_subscribers = 500

abbrev pub profile_full : ℕ
profile_full = 1

abbrev pub profile_prioritized : ℕ
profile_prioritized = 2

abbrev pub profile_minimal : ℕ
profile_minimal = 3

abbrev pub profile_batched : ℕ
profile_batched = 4

abbrev pub max_batch : ℕ
max_batch = 1000

-- Event types are numbers; these are the ones that the code tells apart.
abbrev pub typing : ℕ
typing = 1

abbrev pub presence : ℕ
presence = 2

abbrev pub status_update : ℕ
status_update = 3

-- `event_type in _PRIORITIZED_SKIP_EVENTS`
abbrev pub is_skipped : ℕ → Bool
is_skipped t = (t == typing) || ((t == presence) || (t == status_update))

-- An encoded event and the dict that it encodes.
pub record Event : Type 0 where
  pub event_type : ℕ
  pub payload : Bytes
  pub data_dict : Option ℕ

pub record Links : Type 0 where
  -- `link.status == RNS.Link.ACTIVE`
  pub is_active : ℕ → Bool
  -- sending on the link returns, and does not raise
  pub sends : ℕ → Bool
  -- `RNS.Link.MDU`
  pub mdu : ℕ

pub data Effect : Type 0 where
  -- `RNS.Packet(link, data).send()`, `RNS.Resource(data, link)`
  packet resource : ℕ → Bytes → Effect
  -- `defer_hook(identity_hash, channel_id, event_type, data_dict)`
  deferred : ℕ → ℕ → ℕ → ℕ → Effect
  -- `_send_batch_via_lxmf`: destination, events
  lxmf_batch : ℕ → List Bytes → Effect

pub record LiveManager : Type 0 where
  -- channel to link to profile
  pub subscriptions : Dict ℕ (Dict ℕ ℕ)
  pub supports_sealed : Dict ℕ Bool
  -- by channel and link
  pub batch_buffer : Dict (ℕ × ℕ) (List (Bytes × ℕ))
  pub link_identities : Dict ℕ ℕ
  pub has_defer_hook : Bool
  pub push_buffer : ZombieLinkPushBuffer

abbrev pub new_manager : Bool → LiveManager
new_manager hook = record {
  subscriptions = [];
  supports_sealed = [];
  batch_buffer = [];
  link_identities = [];
  has_defer_hook = hook;
  push_buffer = new_buffer default_retention default_per_link_cap;
}

unfoldable pub total_subscribers : Dict ℕ (Dict ℕ ℕ) → ℕ
total_subscribers [] = 0
total_subscribers ((channel, links) ∷ d) = length links + total_subscribers d

unfoldable pub get_subscribers : LiveManager → ℕ → Dict ℕ ℕ
get_subscribers m channel = lookup_or channel [] m.subscriptions

abbrev pub note_identity : ℕ → Option ℕ → Dict ℕ ℕ → Dict ℕ ℕ
note_identity link none d = d
note_identity link (some identity) d = insert link identity d

-- `if channel_id not in self._subscriptions: self._subscriptions[channel_id] = {}`
unfoldable pub open_channel : ℕ → LiveManager → LiveManager
open_channel channel m =
    if contains channel m.subscriptions
    then m
    else record m { subscriptions = insert channel [] m.subscriptions }

unfoldable pub add_subscriber : ℕ → ℕ → ℕ → LiveManager → LiveManager
add_subscriber channel link profile m = record m {
  subscriptions = insert channel (insert link profile (get_subscribers m channel)) m.subscriptions;
}

unfoldable pub subscribe : LiveManager → ℕ → ℕ → ℕ → Option ℕ → Bool → Bool × LiveManager
subscribe m channel link profile identity sealed =
    let m' = open_channel channel m in
    let links = get_subscribers m' channel in
    let m'' = add_subscriber channel link profile m' in
    if profile == profile_minimal
    then (false, m)
    else if contains link links
    then (true, m'')
    else if leb max_subscribers_per_channel (length links)
    then (false, m')
    else if leb max_total_subscribers (total_subscribers m'.subscriptions)
    then (false, m')
    else (
      true,
      record m'' {
        link_identities = note_identity link identity m''.link_identities;
        supports_sealed =
            if sealed then insert link true m''.supports_sealed else m''.supports_sealed;
      },
    )

-- A channel after a link left it; an empty one goes.
abbrev pub without_empty : ℕ → Dict ℕ ℕ → Dict ℕ (Dict ℕ ℕ) → Dict ℕ (Dict ℕ ℕ)
without_empty channel [] rest = rest
without_empty channel (l ∷ links) rest = (channel, l ∷ links) ∷ rest

unfoldable pub remove_link : ℕ → Dict ℕ (Dict ℕ ℕ) → Dict ℕ (Dict ℕ ℕ)
remove_link link [] = []
remove_link link ((channel, links) ∷ d) =
    without_empty channel (erase link links) (remove_link link d)

unfoldable pub remove_from : ℕ → ℕ → Dict ℕ (Dict ℕ ℕ) → Dict ℕ (Dict ℕ ℕ)
remove_from wanted link [] = []
remove_from wanted link ((channel, links) ∷ d) =
    let rest = remove_from wanted link d in
    if channel == wanted
    then without_empty channel (erase link links) d
    else (channel, links) ∷ rest

unfoldable pub unsubscribe : LiveManager → ℕ → ℕ → LiveManager
unsubscribe m channel link = record m { subscriptions = remove_from channel link m.subscriptions }

unfoldable pub unsubscribe_all : LiveManager → ℕ → LiveManager
unsubscribe_all m link = record m { subscriptions = remove_link link m.subscriptions }
