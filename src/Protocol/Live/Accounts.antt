-- ===== src/Protocol/Live/Accounts.antt =====
-- No event that a subscriber is due is lost by a push.
use mathlib.Core.Path.{subst}
use hokora.Base.{
  ℕ, zero, suc, ◌-◌, ◌≤◌, ◌≡◌, ◌⊎◌, refl, sym, ap, ◌∙◌, inl, inr, Bool, true, false, ◌&&◌, Option,
  none, some, List, [], ◌∷◌, ◌++◌, arith, length, length-append, drop, ◌==◌, ==_iff, Bool-cases, In,
  here, In-append_left, In-append_right,
}
use hokora.Base.Keys.{number_key, pair_key}
use hokora.Bytes.{Bytes}
use hokora.Dict.{Dict, lookup, lookup_or}
use hokora.Dict.Laws.{IsUnique, lookup-insert, lookup-insert_self}
use hokora.Protocol.Live.{
  LiveManager, Links, Event, Effect, deferred, profile_prioritized, profile_batched, max_batch,
  is_skipped, unsubscribe_all, get_subscribers,
}
use hokora.Protocol.Live.Pushing.{
  send, deferral, defer_for_dead_link, record_event, add_to_batch, push_one, push_each, clean_up,
  push_to_subscribers, push_event,
}

abbrev pub batch_of : LiveManager → ℕ → ℕ → List (Bytes × ℕ)
batch_of m channel link = lookup_or (channel, link) [] m.batch_buffer

-- The event was sent on the link, put in the deferred queue of the identity, or put in its batch.
abbrev pub Accounted : Links → ℕ → ℕ → Event → ℕ → ℕ → ℕ → List Effect → List (Bytes × ℕ) → Type 0
Accounted links now channel e identity dict link effects batch =
    In (send links link e.payload) effects
    ⊎ (In (deferred identity channel e.event_type dict) effects ⊎ In (e.payload, now) batch)

In-drop_last :
    {A : Type 0} (n : ℕ) (xs : List A) (a : A) → n ≤ length xs → In a (drop n (xs ++ a ∷ []))
In-drop_last zero xs a h = In-append_right xs here
In-drop_last (suc n) [] a h = absurd (omega arith)
In-drop_last (suc n) (x ∷ xs) a h = In-drop_last n xs a (omega arith)

-- What is batched is there, also where the batch was cut to its limit.
added :
    (now : ℕ) (m : LiveManager) (link channel : ℕ) (e : Event)
    → In (e.payload, now) (batch_of (add_to_batch now m link channel e) channel link)
unfolding add_to_batch
added now m link channel e =
    let old = lookup_or (channel, link) [] m.batch_buffer in
    let buf = old ++ (e.payload, now) ∷ [] in
    subst
      (λ (o : Option (List (Bytes × ℕ))). In (e.payload, now) (elim o [ none ↦ [] | some b ↦ b ]))
      (sym (lookup-insert_self (channel, link) (drop (length buf - max_batch) buf) m.batch_buffer))
      (In-drop_last (length buf - max_batch) old (e.payload, now)
        (omega (arith, length-append old ((e.payload, now) ∷ []))))

module _ (links : Links) (now channel : ℕ) (e : Event) (m : LiveManager) (link profile : ℕ)
    {identity dict : ℕ} where
  deferral_known :
      m.has_defer_hook ≡ true
      → lookup link m.link_identities ≡ some identity
      → e.data_dict ≡ some dict
      → defer_for_dead_link m link channel e ≡ deferred identity channel e.event_type dict ∷ []
  unfolding defer_for_dead_link
  deferral_known hook known d = rw (hook, known, d) (unfold deferral in refl)

  turn-Accounted :
      m.has_defer_hook ≡ true
      → lookup link m.link_identities ≡ some identity
      → e.data_dict ≡ some dict
      → is_skipped e.event_type ≡ false
      → let (effects, dead, m') = push_one links now channel e m link profile in
        Accounted links now channel e identity dict link effects (batch_of m' channel link)
  unfolding push_one
  turn-Accounted hook known d due =
      let deferred_now = deferral_known hook known d in
      elim (Bool-cases (links.is_active link)) [
        | inr dead ↦ rw (dead, deferred_now) (inr (inl here))
        | inl alive ↦ elim (Bool-cases (profile == profile_batched)) [
          | inl batched ↦
              rw (alive, due, and_false (profile == profile_prioritized), batched)
                (inr (inr (added now m link channel e)))
          | inr now_due ↦ elim (Bool-cases (links.sends link)) [
            | inl sent ↦
                rw (alive, due, and_false (profile == profile_prioritized), now_due, sent)
                  (inl here)
            | inr failed ↦
                rw
                  (
                    alive,
                    due,
                    and_false (profile == profile_prioritized),
                    now_due,
                    failed,
                    deferred_now,
                  )
                  (inr (inl here))
          ]
        ]
      ]
    where
      and_false : (b : Bool) → (b && false) ≡ false
      and_false true = refl
      and_false false = refl

-- A turn of another link leaves the batch of a link.
turn_of_other :
    (links : Links) (now channel : ℕ) (e : Event) (m : LiveManager) (j profile link : ℕ)
    → (j == link) ≡ false
    → batch_of (push_one links now channel e m j profile).2 channel link ≡ batch_of m channel link
unfolding push_one add_to_batch record_event
turn_of_other links now channel e m j profile link other = ground (
  arith,
  lookup-insert (channel, j) (channel, link)
      (drop (length (lookup_or (channel, j) [] m.batch_buffer ++ (e.payload, now) ∷ []) - max_batch)
        (lookup_or (channel, j) [] m.batch_buffer ++ (e.payload, now) ∷ []))
      m.batch_buffer,
)

turn_keeps :
    (links : Links) (now channel : ℕ) (e : Event) (m : LiveManager) (j profile : ℕ)
    → let m' = (push_one links now channel e m j profile).2 in
      (m'.has_defer_hook ≡ m.has_defer_hook) × (m'.link_identities ≡ m.link_identities)
unfolding push_one add_to_batch record_event
turn_keeps links now channel e m j profile = (ground arith, ground arith)

-- The turns of subscribers that a link is not among leave its batch.
others_keep :
    (links : Links) (now channel : ℕ) (e : Event) (m : LiveManager) (subscribers : Dict ℕ ℕ)
    (link : ℕ)
    → lookup link subscribers ≡ none
    → batch_of (push_each links now channel e m subscribers).2 channel link
      ≡ batch_of m channel link
unfolding push_each
others_keep links now channel e m [] link h = refl
others_keep links now channel e m ((j, profile) ∷ subscribers) link h =
    elim (Bool-cases (j == link)) [
      | inl same ↦ absurd (unfold lookup in ground arith)
      | inr other ↦
          (others_keep links now channel e (push_one links now channel e m j profile).2 subscribers
              link (further other)
            ∙ turn_of_other links now channel e m j profile link other)
    ]
  where
    further : (j == link) ≡ false → lookup link subscribers ≡ none
    further other = unfold lookup in ground arith

Accounted-more :
    (links : Links) (now channel : ℕ) (e : Event) (identity dict link : ℕ) {effects : List Effect}
    (effects' : List Effect) {batch batch' : List (Bytes × ℕ)}
    → batch' ≡ batch
    → Accounted links now channel e identity dict link effects batch
    → Accounted links now channel e identity dict link (effects ++ effects') batch'
Accounted-more links now channel e identity dict link effects' same (inl sent) =
    inl (In-append_left effects' sent)
Accounted-more links now channel e identity dict link effects' same (inr (inl d)) =
    inr (inl (In-append_left effects' d))
Accounted-more links now channel e identity dict link effects' same (inr (inr b)) =
    inr (inr (subst (λ l. In (e.payload, now) l) (sym same) b))

Accounted-later :
    (links : Links) (now channel : ℕ) (e : Event) (identity dict link : ℕ) (effects : List Effect)
    {effects' : List Effect} {batch : List (Bytes × ℕ)}
    → Accounted links now channel e identity dict link effects' batch
    → Accounted links now channel e identity dict link (effects ++ effects') batch
Accounted-later links now channel e identity dict link effects (inl sent) =
    inl (In-append_right effects sent)
Accounted-later links now channel e identity dict link effects (inr (inl d)) =
    inr (inl (In-append_right effects d))
Accounted-later links now channel e identity dict link effects (inr (inr b)) = inr (inr b)

each-Accounted :
    (links : Links) (now channel : ℕ) (e : Event) (m : LiveManager) (subscribers : Dict ℕ ℕ)
    (link : ℕ) {profile identity dict : ℕ}
    → IsUnique subscribers
    → lookup link subscribers ≡ some profile
    → m.has_defer_hook ≡ true
    → lookup link m.link_identities ≡ some identity
    → e.data_dict ≡ some dict
    → is_skipped e.event_type ≡ false
    → let (effects, dead, m') = push_each links now channel e m subscribers in
      Accounted links now channel e identity dict link effects (batch_of m' channel link)
unfolding push_each
each-Accounted links now channel e m [] link {profile} u h hook known d due =
    absurd (unfold lookup in ground arith)
each-Accounted links now channel e m ((j, p) ∷ subscribers) link {profile} {identity} {dict} u h
      hook known d due =
    let (hook', known') = turn_keeps links now channel e m j p in
    let m' = (push_one links now channel e m j p).2 in
    elim (Bool-cases (j == link)) [
      | inl same ↦
          (let here_it_is : j ≡ link = (==_iff j link).0 same in
            Accounted-more links now channel e identity dict link
              (push_each links now channel e m' subscribers).0
              (others_keep links now channel e m' subscribers link
                (subst (λ k. lookup k subscribers ≡ none) here_it_is u.0))
              (subst
                (λ k.
                  Accounted links now channel e identity dict link
                    (push_one links now channel e m k p).0
                    (batch_of (push_one links now channel e m k p).2 channel link))
                (sym here_it_is) (turn-Accounted links now channel e m link p hook known d due)))
      | inr other ↦
          Accounted-later links now channel e identity dict link
            (push_one links now channel e m j p).0
            (each-Accounted links now channel e m' subscribers link u.1 (further other)
              (hook' ∙ hook) (ap (lookup link) known' ∙ known) d due)
    ]
  where
    further : (j == link) ≡ false → lookup link subscribers ≡ some profile
    further other = unfold lookup in ground arith

clean_up_batch : (dead : List ℕ) (m : LiveManager) → (clean_up dead m).batch_buffer ≡ m.batch_buffer
unfolding clean_up unsubscribe_all
clean_up_batch [] m = refl
clean_up_batch (link ∷ dead) m = clean_up_batch dead (unsubscribe_all m link)

-- A push loses no event that a subscriber is due: for a subscriber of known identity, with the
-- hook set, an event with a dict and of a type that no profile skips, the event is sent on the
-- link, or put in the identity's deferred queue, or is in the link's batch when the push returns,
-- whatever the condition of the links.
pub push_event-Accounted :
    (links : Links) (now : ℕ) (m : LiveManager) (channel : ℕ) (e : Event)
    (link profile identity dict : ℕ)
    → IsUnique (get_subscribers m channel)
    → lookup link (get_subscribers m channel) ≡ some profile
    → m.has_defer_hook ≡ true
    → lookup link m.link_identities ≡ some identity
    → e.data_dict ≡ some dict
    → is_skipped e.event_type ≡ false
    → let (effects, m') = push_event links now m channel e in
      Accounted links now channel e identity dict link effects (batch_of m' channel link)
unfolding push_event push_to_subscribers
push_event-Accounted links now m channel e link profile identity dict u h hook known d due =
    let (effects, dead, m') = push_each links now channel e m (get_subscribers m channel) in
    subst
      (λ b.
        Accounted links now channel e identity dict link effects (lookup_or (channel, link) [] b))
      (sym (clean_up_batch dead m'))
      (each-Accounted links now channel e m (get_subscribers m channel) link u h hook known d due)
