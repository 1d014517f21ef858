-- ===== src/Protocol/Live/Pushing.antt =====
-- src/hokora/protocol/live.py: what a push sends, and what the death of a link replays.
use hokora.Base.{
  ℕ, ◌-◌, Bool, true, false, not, ◌&&◌, Option, none, some, List, [], ◌∷◌, ◌++◌, leb, ◌==◌, length,
  drop, if◌then◌else◌,
}
use hokora.Base.Keys.{number_key, pair_key}
use hokora.Bytes.{Bytes}
use hokora.Dict.{Dict, lookup, insert, erase, lookup_or}
use hokora.Protocol.ZombieLinkBuffer.{Push, record_push, drain}
use hokora.Protocol.Live.{
  LiveManager, Links, Event, Effect, packet, resource, deferred, profile_prioritized,
  profile_batched, max_batch, is_skipped, get_subscribers, unsubscribe_all, remove_link,
}

unfoldable pub deferral : Bool → Option ℕ → ℕ → ℕ → Option ℕ → List Effect
deferral hook identity channel code none = []
deferral false identity channel code (some dict) = []
deferral true none channel code (some dict) = []
deferral true (some identity) channel code (some dict) = deferred identity channel code dict ∷ []

unfoldable pub defer_for_dead_link : LiveManager → ℕ → ℕ → Event → List Effect
defer_for_dead_link m link channel e =
    deferral m.has_defer_hook (lookup link m.link_identities) channel e.event_type e.data_dict

unfoldable pub record_event : ℕ → LiveManager → ℕ → ℕ → Event → Option ℕ → LiveManager
record_event now m link channel e none = m
record_event now m link channel e (some dict) = record m {
  push_buffer =
      record_push m.push_buffer link
        (record { time = now; channel_id = channel; event_type = e.event_type; data_dict = dict });
}

-- `buf[-1000:]` where the buffer has grown past the cap.
unfoldable pub add_to_batch : ℕ → LiveManager → ℕ → ℕ → Event → LiveManager
add_to_batch now m link channel e =
    let buf = lookup_or (channel, link) [] m.batch_buffer ++ (e.payload, now) ∷ [] in
    record m {
      batch_buffer = insert (channel, link) (drop (length buf - max_batch) buf) m.batch_buffer;
    }

abbrev pub send : Links → ℕ → Bytes → Effect
send links link bytes =
    if leb (length bytes) links.mdu then packet link bytes else resource link bytes

-- One subscriber's turn: what is sent, whether the link is dead, and the manager after it.
unfoldable pub push_one :
    Links → ℕ → ℕ → Event → LiveManager → ℕ → ℕ → List Effect × Bool × LiveManager
push_one links now channel e m link profile =
    if not (links.is_active link)
    then (defer_for_dead_link m link channel e, true, m)
    else if (profile == profile_prioritized) && is_skipped e.event_type
    then ([], false, m)
    else if profile == profile_batched
    then ([], false, add_to_batch now m link channel e)
    else if links.sends link
    then (send links link e.payload ∷ [], false, record_event now m link channel e e.data_dict)
    else (defer_for_dead_link m link channel e, true, m)

abbrev pub note_dead : Bool → ℕ → List ℕ → List ℕ
note_dead true link dead = link ∷ dead
note_dead false link dead = dead

-- The loop over the subscribers: what is sent, the dead links, and the manager after it.
unfoldable pub push_each :
    Links → ℕ → ℕ → Event → LiveManager → Dict ℕ ℕ → List Effect × List ℕ × LiveManager
push_each links now channel e m [] = ([], [], m)
push_each links now channel e m ((link, profile) ∷ subscribers) =
    let (effects, is_dead, m') = push_one links now channel e m link profile in
    let (effects', dead, m'') = push_each links now channel e m' subscribers in
    (effects ++ effects', note_dead is_dead link dead, m'')

unfoldable pub clean_up : List ℕ → LiveManager → LiveManager
clean_up [] m = m
clean_up (link ∷ dead) m = clean_up dead (unsubscribe_all m link)

unfoldable pub push_to_subscribers :
    Links → ℕ → LiveManager → ℕ → Dict ℕ ℕ → Event → List Effect × LiveManager
push_to_subscribers links now m channel subscribers e =
    let (effects, dead, m') = push_each links now channel e m subscribers in
    (effects, clean_up dead m')

-- With no subscriber the loop below does nothing, as the early return.
unfoldable pub push_event : Links → ℕ → LiveManager → ℕ → Event → List Effect × LiveManager
push_event links now m channel e =
    push_to_subscribers links now m channel (get_subscribers m channel) e

abbrev pub is_capable : LiveManager → ℕ → Bool
is_capable m link = lookup_or link false m.supports_sealed

-- The subscribers whose capability is `wanted`.
unfoldable pub capable_are : LiveManager → Bool → Dict ℕ ℕ → Dict ℕ ℕ
capable_are m wanted [] = []
capable_are m wanted ((link, profile) ∷ d) =
    let rest = capable_are m wanted d in
    if wanted
    then (if is_capable m link then (link, profile) ∷ rest else rest)
    else (if is_capable m link then rest else (link, profile) ∷ rest)

-- `encoded capable` is the event as it is encoded for that capability; a message that is not sealed
-- has one encoding.
unfoldable pub push_message :
    Links → ℕ → LiveManager → ℕ → Bool → (Bool → Event) → List Effect × LiveManager
push_message links now m channel has_ciphertext encoded =
    let subscribers = get_subscribers m channel in
    let (effects, m') =
      push_to_subscribers links now m channel (capable_are m false subscribers) (encoded false) in
    let (effects', m'') =
      push_to_subscribers links now m' channel (capable_are m true subscribers) (encoded true) in
    if has_ciphertext
    then (effects ++ effects', m'')
    else push_to_subscribers links now m channel subscribers (encoded false)

abbrev pub replay : Bool → Option ℕ → List Push → List Effect
replay hook identity [] = []
replay hook identity (p ∷ ps) =
    deferral hook identity p.channel_id p.event_type (some p.data_dict) ++ replay hook identity ps

unfoldable pub handle_link_death : LiveManager → ℕ → List Effect × LiveManager
handle_link_death m link =
    let (buffered, buffer) = drain m.push_buffer link in
    (
      replay m.has_defer_hook (lookup link m.link_identities) buffered,
      record m {
        push_buffer = buffer;
        subscriptions = remove_link link m.subscriptions;
        link_identities = erase link m.link_identities;
        supports_sealed = erase link m.supports_sealed;
      },
    )
