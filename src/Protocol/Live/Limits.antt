-- ===== src/Protocol/Live/Limits.antt =====
-- The subscriber limits hold, whatever clients and links do.
use hokora.Base.{
  ℕ, ◌+◌, ◌≤◌, ◌<◌, ◌≡◌, refl, ◌∙◌, inl, inr, Bool, true, false, Option, [], ◌∷◌, arith, length,
  leb, ◌==◌, Bool-cases,
}
use hokora.Base.Keys.{◌≟◌, number_key}
use hokora.Dict.{Dict, lookup, contains, insert, erase, lookup_or}
use hokora.Dict.Laws.{length-insert, length-erase-le}
use hokora.Protocol.Live.{
  LiveManager, max_subscribers_per_channel, max_total_subscribers, profile_minimal,
  total_subscribers, get_subscribers, open_channel, add_subscriber, subscribe, without_empty,
  remove_link, remove_from,
}

-- No channel has more subscribers than the limit allows.
abbrev pub EachWithin : ℕ → Dict ℕ (Dict ℕ ℕ) → Type 0
EachWithin cap [] = Unit
EachWithin cap ((channel, links) ∷ d) = (length links ≤ cap) × EachWithin cap d

pub record WithinLimits (d : Dict ℕ (Dict ℕ ℕ)) : Type 0 where
  pub each : EachWithin max_subscribers_per_channel d
  pub total : total_subscribers d ≤ max_total_subscribers

-- One dict of channels has no more subscribers than another.
insert_limits :
    (cap extra channel : ℕ) (links : Dict ℕ ℕ) (d : Dict ℕ (Dict ℕ ℕ))
    → length links ≤ cap
    → length links ≤ length (lookup_or channel [] d) + extra
    → EachWithin cap d
    → EachWithin cap (insert channel links d)
      × (total_subscribers (insert channel links d) ≤ total_subscribers d + extra)
unfolding insert total_subscribers lookup
insert_limits cap extra channel links [] h e w = ((h, tt), omega arith)
insert_limits cap extra channel links ((j, l) ∷ d) h e w = elim (Bool-cases (j ≟ channel)) [
  | inl same ↦ rw same ((h, w.1), omega (arith, same_size same))
  | inr other ↦
      (let (w', t) = insert_limits cap extra channel links d h (other_size other) w.1 in
        rw other ((w.0, w'), omega arith))
]
  where
    same_size : (j ≟ channel) ≡ true → length links ≤ length l + extra
    same_size same = ground (arith, e)

    other_size : (j ≟ channel) ≡ false → length links ≤ length (lookup_or channel [] d) + extra
    other_size other = ground (arith, e)

lookup_within :
    (cap channel : ℕ) (d : Dict ℕ (Dict ℕ ℕ))
    → EachWithin cap d
    → length (lookup_or channel [] d) ≤ cap
unfolding lookup
lookup_within cap channel [] w = omega arith
lookup_within cap channel ((j, l) ∷ d) w = ground (arith, lookup_within cap channel d)

without_empty_limits :
    (cap channel : ℕ) (links : Dict ℕ ℕ) (d : Dict ℕ (Dict ℕ ℕ))
    → length links ≤ cap
    → EachWithin cap d
    → EachWithin cap (without_empty channel links d)
      × (total_subscribers (without_empty channel links d) ≤ length links + total_subscribers d)
unfolding total_subscribers
without_empty_limits cap channel [] d h w = (w, omega arith)
without_empty_limits cap channel (l ∷ links) d h w = ((h, w), omega arith)

pub remove_link_limits :
    (cap link : ℕ) (d : Dict ℕ (Dict ℕ ℕ))
    → EachWithin cap d
    → EachWithin cap (remove_link link d)
      × (total_subscribers (remove_link link d) ≤ total_subscribers d)
unfolding remove_link total_subscribers
remove_link_limits cap link [] w = (tt, omega arith)
remove_link_limits cap link ((channel, links) ∷ d) w =
    let (w', t) = remove_link_limits cap link d w.1 in
    let (w'', t') =
      without_empty_limits cap channel (erase link links) (remove_link link d)
        (omega (arith, length-erase-le link links, w.0)) w' in
    (w'', omega (arith, t, t', length-erase-le link links))

pub remove_from_limits :
    (cap wanted link : ℕ) (d : Dict ℕ (Dict ℕ ℕ))
    → EachWithin cap d
    → EachWithin cap (remove_from wanted link d)
      × (total_subscribers (remove_from wanted link d) ≤ total_subscribers d)
unfolding remove_from total_subscribers
remove_from_limits cap wanted link [] w = (tt, omega arith)
remove_from_limits cap wanted link ((channel, links) ∷ d) w =
    elim (Bool-cases (channel == wanted)) [
      | inl same ↦
          (let (w', t) =
              without_empty_limits cap channel (erase link links) d
                (omega (arith, length-erase-le link links, w.0)) w.1 in
            rw same (w', omega (arith, t, length-erase-le link links)))
      | inr other ↦
          (let (w', t) = remove_from_limits cap wanted link d w.1 in
            rw other ((w.0, w'), omega (arith, t)))
    ]

pub open_limits :
    (channel : ℕ) (m : LiveManager)
    → WithinLimits m.subscriptions
    → WithinLimits (open_channel channel m).subscriptions
unfolding open_channel
open_limits channel m w = elim (Bool-cases (contains channel m.subscriptions)) [
  | inl there ↦ rw there w
  | inr new ↦
      (let (each, total) =
          insert_limits max_subscribers_per_channel 0 channel [] m.subscriptions (omega arith)
            (omega arith) w.each in
        rw new (record { each = each; total = omega (arith, w.total) }))
]

-- A link that is there already, or one more where both limits leave room.
add_limits :
    (channel link profile : ℕ) (m : LiveManager)
    → (contains link (get_subscribers m channel) ≡ false
        → (length (get_subscribers m channel) < max_subscribers_per_channel)
          × (total_subscribers m.subscriptions < max_total_subscribers))
    → WithinLimits m.subscriptions
    → WithinLimits (add_subscriber channel link profile m).subscriptions
unfolding add_subscriber get_subscribers
add_limits channel link profile m room w =
    let links = lookup_or channel [] m.subscriptions in
    let size = length-insert link profile links in
    let old = lookup_within max_subscribers_per_channel channel m.subscriptions w.each in
    elim (Bool-cases (contains link links)) [
      | inl there ↦
          (let same : length (insert link profile links) ≡ length links = size ∙ rw there refl in
            let (each, total) =
              insert_limits max_subscribers_per_channel 0 channel (insert link profile links)
                m.subscriptions (omega arith) (omega arith) w.each in
            record { each = each; total = omega (arith, w.total) })
      | inr new ↦
          (let more : length (insert link profile links) ≡ length links + 1 = size ∙ rw new refl in
            let (r, r') = room new in
            let (each, total) =
              insert_limits max_subscribers_per_channel 1 channel (insert link profile links)
                m.subscriptions (omega arith) (omega arith) w.each in
            record { each = each; total = omega arith })
    ]

pub subscribe_limits :
    (m : LiveManager) (channel link profile : ℕ) (identity : Option ℕ) (sealed : Bool)
    → WithinLimits m.subscriptions
    → WithinLimits (subscribe m channel link profile identity sealed).1.subscriptions
unfolding subscribe
subscribe_limits m channel link profile identity sealed w =
    let m' = open_channel channel m in
    let links = get_subscribers m' channel in
    let w' = open_limits channel m w in
    elim (Bool-cases (profile == profile_minimal)) [
      | inl e ↦ rw e w
      | inr e ↦ elim (Bool-cases (contains link links)) [
        | inl there ↦
            rw (e, there) (add_limits channel link profile m' (λ new. absurd (ground arith)) w')
        | inr new ↦ elim (Bool-cases (leb max_subscribers_per_channel (length links))) [
          | inl full ↦ rw (e, new, full) w'
          | inr r ↦
              elim (Bool-cases (leb max_total_subscribers (total_subscribers m'.subscriptions))) [
                | inl full ↦ rw (e, new, r, full) w'
                | inr r' ↦
                    rw (e, new, r, r')
                      (add_limits channel link profile m' (λ _. (ground arith, ground arith)) w')
              ]
        ]
      ]
    ]
