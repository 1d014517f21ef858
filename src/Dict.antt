-- ===== src/Dict.antt =====
-- A Python dict as a list of its entries in insertion order, and the operations that the program
-- makes on its dicts. The keys' equality is an instance.
pub mod Laws
use hokora.Base.{
  ℕ, suc, Bool, true, false, Option, none, some, List, [], ◌∷◌, length, if◌then◌else◌,
}
use hokora.Base.Keys.{Key, ◌≟◌}

abbrev pub Dict {ℓ κ} : Type ℓ → Type κ → Type (ℓ ⊔ κ)
Dict K V = List (K × V)

module _ {ℓ κ} {K : Type ℓ} {V : Type κ} ⦃e : Key K⦄ where
  -- `d.get(k)`
  unfoldable pub lookup : K → Dict K V → Option V
  lookup k [] = none
  lookup k ((j, v) ∷ d) = if j ≟ k then some v else lookup k d

  -- `k in d`
  unfoldable pub contains : K → Dict K V → Bool
  contains k [] = false
  contains k ((j, v) ∷ d) = if j ≟ k then true else contains k d

  -- `d[k] = v`: a key that is there keeps its place, a new one goes last.
  unfoldable pub insert : K → V → Dict K V → Dict K V
  insert k v [] = (k, v) ∷ []
  insert k v ((j, w) ∷ d) = if j ≟ k then (k, v) ∷ d else (j, w) ∷ insert k v d

  -- `d.pop(k, None)`, `del d[k]`
  unfoldable pub erase : K → Dict K V → Dict K V
  erase k [] = []
  erase k ((j, w) ∷ d) = let rest = erase k d in if j ≟ k then rest else (j, w) ∷ rest

-- `d.get(k, default)`
abbrev pub lookup_or {ℓ κ} : {K : Type ℓ} {V : Type κ} ⦃e : Key K⦄ → K → V → Dict K V → V
lookup_or k default d = elim (lookup k d) [ none ↦ default | some v ↦ v ]

-- The entries for which a test holds: the deletion of a list of stale keys.
unfoldable pub keep {ℓ κ} : {K : Type ℓ} {V : Type κ} → (V → Bool) → Dict K V → Dict K V
keep p [] = []
keep p ((j, w) ∷ d) = let rest = keep p d in if p w then (j, w) ∷ rest else rest
