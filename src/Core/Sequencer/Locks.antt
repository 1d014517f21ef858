-- ===== src/Core/Sequencer/Locks.antt =====
-- src/hokora/core/sequencer.py: `_get_lock` never drops a lock that is held.
use hokora.Base.{
  ℕ, zero, suc, ◌≡◌, ◌≢◌, sym, ◌∙◌, ap, Bool, true, false, Option, none, some, [], ◌∷◌, arith, leb,
  ◌==◌, length, inl, inr, Bool-cases,
}
use hokora.Base.Keys.{number_key}
use hokora.Dict.{Dict, lookup, contains}
use hokora.Dict.Laws.{lookup-insert, contains-lookup}
use hokora.Core.Sequencer.{evict_locks, get_lock}

true_ne_false : true ≢ false
true_ne_false h = cc

evict_locks-held :
    (n key : ℕ) (locks : Dict ℕ Bool)
    → lookup key locks ≡ some true
    → lookup key (evict_locks n locks) ≡ some true
unfolding lookup evict_locks
evict_locks-held zero key locks h = h
evict_locks-held (suc n) key [] h = h
evict_locks-held (suc n) key ((k, held) ∷ locks) h = ground (arith, evict_locks-held n key locks)

other_key :
    (key other : ℕ) (locks : Dict ℕ Bool)
    → lookup key locks ≡ some true
    → contains other locks ≡ false
    → (other == key) ≡ false
other_key key other locks h new = elim (Bool-cases (other == key)) [
  | inr e ↦ e
  | inl e ↦
      let same : other ≡ key = ground arith in
      let there : contains other locks ≡ true =
        contains-lookup other locks
        ∙ ap (λ (o : Option Bool). elim o [ none ↦ false | some _ ↦ true ])
            (ap (λ (k : ℕ). lookup k locks) same ∙ h) in
      absurd (true_ne_false (sym there ∙ new))
]

-- A lock that is held is the same lock after any other is asked for, also where the dict is full and
-- entries are evicted, so that two tasks never hold different locks for one key.
pub get_lock-held :
    (key other : ℕ) (locks : Dict ℕ Bool)
    → lookup key locks ≡ some true
    → lookup key (get_lock other locks) ≡ some true
unfolding get_lock
get_lock-held key other locks h = elim (Bool-cases (contains other locks)) [
  | inl old ↦ rw old h
  | inr new ↦ elim (Bool-cases (leb 10000 (length locks))) [
    | inl full ↦
        rw (new, full)
          (lookup-insert other key false (evict_locks 100 locks)
            ∙ ground (arith, evict_locks-held 100 key locks h, other_key key other locks h new))
    | inr room ↦
        rw (new, room)
          (lookup-insert other key false locks ∙ ground (arith, h, other_key key other locks h new))
  ]
]
