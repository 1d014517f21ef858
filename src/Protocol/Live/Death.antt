-- ===== src/Protocol/Live/Death.antt =====
-- What a dead link leaves behind.
use hokora.Base.{
  ℕ, ◌≡◌, refl, ap, inl, inr, true, Option, none, some, List, [], ◌∷◌, arith, map, ◌==◌, Bool-cases,
}
use hokora.Base.Keys.{≟-refl, number_key}
use hokora.Bytes.{Bytes}
use hokora.Dict.{Dict, lookup, erase, lookup_or}
use hokora.Dict.Laws.{lookup-erase}
use hokora.Protocol.ZombieLinkBuffer.{Push, buffered, drain}
use hokora.Protocol.Live.{
  LiveManager, Links, Effect, deferred, get_subscribers, without_empty, remove_link,
}
use hokora.Protocol.Live.Pushing.{handle_link_death, replay, deferral}
use hokora.Protocol.Live.Batches.{flush_one, fall_back}

lookup-without_empty :
    (link : ℕ) (links : Dict ℕ ℕ) (channel wanted : ℕ) (d : Dict ℕ (Dict ℕ ℕ))
    → lookup link links ≡ none
    → lookup link (lookup_or wanted [] d) ≡ none
    → lookup link (lookup_or wanted [] (without_empty channel links d)) ≡ none
lookup-without_empty link [] channel wanted d h e = e
lookup-without_empty link (l ∷ links) channel wanted d h e = elim (Bool-cases (channel == wanted)) [
  | inl same ↦ unfold lookup in ground (arith, h)
  | inr other ↦ unfold lookup in ground (arith, e)
]

-- No channel has a link that was removed.
pub lookup-remove_link :
    (link wanted : ℕ) (d : Dict ℕ (Dict ℕ ℕ))
    → lookup link (lookup_or wanted [] (remove_link link d)) ≡ none
unfolding remove_link
lookup-remove_link link wanted [] = unfold lookup in refl
lookup-remove_link link wanted ((channel, links) ∷ d) =
    lookup-without_empty link (erase link links) channel wanted (remove_link link d)
      (ground (arith, lookup-erase link link links, ≟-refl link)) (lookup-remove_link link wanted d)

-- The calls of the hook that replay a buffer.
abbrev pub deferral_of : ℕ → Push → Effect
deferral_of identity p = deferred identity p.channel_id p.event_type p.data_dict

replay_known :
    (identity : ℕ) (ps : List Push) → replay true (some identity) ps ≡ map (deferral_of identity) ps
unfolding deferral
replay_known identity [] = refl
replay_known identity (p ∷ ps) = ap (λ l. deferral_of identity p ∷ l) (replay_known identity ps)

-- The death of a link whose identity is known replays everything that is buffered for it into the
-- deferred queue, in order, if the hook is set; afterwards nothing is buffered for it, no channel
-- has it as a subscriber and its identity is forgotten.
pub handle_link_death_lem :
    (m : LiveManager) (link identity : ℕ)
    → m.has_defer_hook ≡ true
    → lookup link m.link_identities ≡ some identity
    → let (effects, m') = handle_link_death m link in
      (effects ≡ map (deferral_of identity) (buffered m.push_buffer link))
      × (buffered m'.push_buffer link ≡ [])
      × ((channel : ℕ) → lookup link (get_subscribers m' channel) ≡ none)
      × (lookup link m'.link_identities ≡ none)
unfolding handle_link_death drain get_subscribers
handle_link_death_lem m link identity hook known = (
  rw (hook, known) (replay_known identity (buffered m.push_buffer link)),
  ground (arith, lookup-erase link link m.push_buffer.pushes),
  λ channel. lookup-remove_link link channel m.subscriptions,
  ground (arith, lookup-erase link link m.link_identities),
)

-- A batch that a link had not yet been sent when it died goes nowhere at the next flush, neither
-- on the link nor by store and forward, whatever destination the identity has.
pub dead_batch_is_lost :
    (links : Links) (batch : List Bytes → Bytes) (fallback : Option (ℕ → Option ℕ))
    (m : LiveManager) (channel link : ℕ) (events : List (Bytes × ℕ))
    → flush_one links batch fallback (handle_link_death m link).1 channel link events ≡ []
unfolding flush_one handle_link_death get_subscribers
dead_batch_is_lost links batch fallback m channel link [] = refl
dead_batch_is_lost links batch fallback m channel link (e ∷ es) =
    rw (lookup-remove_link link channel m.subscriptions, forgotten) (unknown fallback _)
  where
    forgotten : lookup link (erase link m.link_identities) ≡ none
    forgotten = ground (arith, lookup-erase link link m.link_identities)

    unknown : (f : Option (ℕ → Option ℕ)) (events : List Bytes) → fall_back f none events ≡ []
    unknown none events = unfold fall_back in refl
    unknown (some f) events = unfold fall_back in refl
