-- ===== src/Dict/Laws.antt =====
-- What the operations on a dict do to lookups, to membership and to the size.
use mathlib.Core.Path.{subst}
use hokora.Base.{
  inl, inr, Bool-cases, ◌+◌, ◌≤◌, ◌≡◌, refl, Bool, true, false, none, some, [], ◌∷◌, ◌++◌, arith,
  length, if◌then◌else◌,
}
use hokora.Base.Keys.{Key, ◌≟◌, ≟-refl}
use hokora.Dict.{Dict, lookup, contains, insert, erase, keep}

module _ {ℓ κ} {K : Type ℓ} {V : Type κ} ⦃e : Key K⦄ where
  pub lookup-insert :
      (k j : K) (v : V) (d : Dict K V)
      → lookup j (insert k v d) ≡ (if k ≟ j then some v else lookup j d)
  unfolding lookup insert
  lookup-insert k j v [] = refl
  lookup-insert k j v ((i, w) ∷ d) =
      ground (arith, e.same_iff k j, e.same_iff i k, e.same_iff i j, lookup-insert k j v d)

  pub lookup-erase :
      (k j : K) (d : Dict K V) → lookup j (erase k d) ≡ (if k ≟ j then none else lookup j d)
  unfolding lookup erase
  lookup-erase k j [] = ground arith
  lookup-erase k j ((i, w) ∷ d) =
      ground (arith, e.same_iff k j, e.same_iff i k, e.same_iff i j, lookup-erase k j d)

  pub lookup-insert_self : (k : K) (v : V) (d : Dict K V) → lookup k (insert k v d) ≡ some v
  lookup-insert_self k v d = simp (lookup-insert, ≟-refl)

  pub contains-lookup :
      (k : K) (d : Dict K V) → contains k d ≡ elim (lookup k d) [ none ↦ false | some _ ↦ true ]
  unfolding lookup contains
  contains-lookup k [] = refl
  contains-lookup k ((i, w) ∷ d) = ground (arith, contains-lookup k d)

  pub length-insert :
      (k : K) (v : V) (d : Dict K V)
      → length (insert k v d) ≡ (if contains k d then length d else length d + 1)
  unfolding contains insert
  length-insert k v [] = refl
  length-insert k v ((i, w) ∷ d) = ground (arith, length-insert k v d)

  pub length-erase-le : (k : K) (d : Dict K V) → length (erase k d) ≤ length d
  unfolding erase
  length-erase-le k [] = omega arith
  length-erase-le k ((i, w) ∷ d) = ground (arith, length-erase-le k d)

  -- A new key goes last.
  pub insert-append :
      (k : K) (v : V) (d : Dict K V) → contains k d ≡ false → insert k v d ≡ d ++ (k, v) ∷ []
  unfolding contains insert
  insert-append k v [] h = refl
  insert-append k v ((i, w) ∷ d) h = ground (arith, insert-append k v d)

  pub contains-append : (k : K) (v : V) (d d' : Dict K V) → contains k (d ++ (k, v) ∷ d') ≡ true
  unfolding contains
  contains-append k v [] d' = ground (arith, ≟-refl k)
  contains-append k v ((i, w) ∷ d) d' = ground (arith, contains-append k v d d')

module _ {ℓ κ} {K : Type ℓ} {V : Type κ} where
  pub length-keep-le : (p : V → Bool) (d : Dict K V) → length (keep p d) ≤ length d
  unfolding keep
  length-keep-le p [] = omega arith
  length-keep-le p ((i, w) ∷ d) = ground (arith, length-keep-le p d)

-- The keys of a dict are distinct.
abbrev pub IsUnique {ℓ κ} : {K : Type ℓ} {V : Type κ} ⦃e : Key K⦄ → Dict K V → Type κ
IsUnique [] = Unit
IsUnique ((k, v) ∷ d) = (lookup k d ≡ none) × IsUnique d

module _ {ℓ κ} {K : Type ℓ} {V : Type κ} ⦃e : Key K⦄ where
  pub insert-IsUnique : (k : K) (v : V) (d : Dict K V) → IsUnique d → IsUnique (insert k v d)
  unfolding insert
  insert-IsUnique k v [] u = (unfold lookup in refl, tt)
  insert-IsUnique k v ((i, w) ∷ d) u = elim (Bool-cases (i ≟ k)) [
    | inl same ↦ rw same (rw (← (e.same_iff i k).0 same) u.0, u.1)
    | inr other ↦ rw other (
      rw lookup-insert (ground (arith, e.same_iff i k, e.same_iff k i, u.0)),
      insert-IsUnique k v d u.1,
    )
  ]

  lookup-keep-none :
      (p : V → Bool) (k : K) (d : Dict K V) → lookup k d ≡ none → lookup k (keep p d) ≡ none
  unfolding lookup keep
  lookup-keep-none p k [] h = refl
  lookup-keep-none p k ((i, w) ∷ d) h = ground (arith, lookup-keep-none p k d)

  pub lookup-keep :
      (p : V → Bool) (k : K) (d : Dict K V)
      → IsUnique d
      → lookup k (keep p d)
        ≡ elim (lookup k d) [ none ↦ none | some v ↦ if p v then some v else none ]
  unfolding lookup keep
  lookup-keep p k [] u = refl
  lookup-keep p k ((i, w) ∷ d) u = elim (Bool-cases (i ≟ k)) [
    | inl same ↦ ground (
      arith,
      lookup-keep-none p k d (subst (λ j. lookup j d ≡ none) ((e.same_iff i k).0 same) u.0),
    )
    | inr other ↦ ground (arith, lookup-keep p k d u.1)
  ]
