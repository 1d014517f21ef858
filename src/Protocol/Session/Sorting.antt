-- ===== src/Protocol/Session/Sorting.antt =====
-- The order of a flush, and what it selects.
use mathlib.Core.Path.{subst}
use hokora.Base.{
  ℕ, suc, ◌≡◌, refl, sym, ap, ◌∙◌, inl, inr, true, false, List, [], ◌∷◌, arith, ◌==◌, ==_iff,
  length, Bool-cases, if◌then◌else◌, In, here, there, In-cons, In-under, In-swap,
}
use hokora.Base.Keys.{bytes_key}
use hokora.Protocol.Session.Store.{DeferredSyncItem, precedes, insert_item, sort_items, items_of}

-- Neighbours are in the order of the flush: higher priority first, and older first among equals.
abbrev pub IsOrdered : List DeferredSyncItem → Type 0
IsOrdered [] = Unit
IsOrdered (x ∷ []) = Unit
IsOrdered (x ∷ y ∷ ys) = (precedes x y ≡ true) × IsOrdered (y ∷ ys)

precedes_total : (x y : DeferredSyncItem) → precedes x y ≡ false → precedes y x ≡ true
precedes_total x y h = ground arith

insert_head :
    (x y : DeferredSyncItem) (ys : List DeferredSyncItem)
    → precedes y x ≡ true
    → IsOrdered (y ∷ ys)
    → IsOrdered (insert_item x ys)
    → IsOrdered (y ∷ insert_item x ys)
unfolding insert_item
insert_head x y [] le o o' = (le, tt)
insert_head x y (z ∷ zs) le o o' = elim (Bool-cases (precedes x z)) [
  | inl first ↦ rw first (le, (first, o.1))
  | inr later ↦
      (let rest : IsOrdered (z ∷ insert_item x zs) = shifted later o' in rw later (o.0, rest))
]
  where
    shifted :
        precedes x z ≡ false
        → IsOrdered (if precedes x z then x ∷ (z ∷ zs) else z ∷ insert_item x zs)
        → IsOrdered (z ∷ insert_item x zs)
    shifted later o'' =
        subst (λ b. IsOrdered (if b then x ∷ (z ∷ zs) else z ∷ insert_item x zs)) later o''

tail-IsOrdered :
    (x : DeferredSyncItem) (xs : List DeferredSyncItem) → IsOrdered (x ∷ xs) → IsOrdered xs
tail-IsOrdered x [] o = tt
tail-IsOrdered x (y ∷ ys) o = o.1

insert-IsOrdered :
    (x : DeferredSyncItem) (ys : List DeferredSyncItem)
    → IsOrdered ys
    → IsOrdered (insert_item x ys)
unfolding insert_item
insert-IsOrdered x [] o = tt
insert-IsOrdered x (y ∷ ys) o =
    let ih = insert-IsOrdered x ys (tail-IsOrdered y ys o) in
    elim (Bool-cases (precedes x y)) [
      | inl first ↦ rw first (first, o)
      | inr later ↦ rw later (insert_head x y ys (precedes_total x y later) o ih)
    ]

pub sort-IsOrdered : (xs : List DeferredSyncItem) → IsOrdered (sort_items xs)
unfolding sort_items
sort-IsOrdered [] = tt
sort-IsOrdered (x ∷ xs) = insert-IsOrdered x (sort_items xs) (sort-IsOrdered xs)

module _ (a x : DeferredSyncItem) where
  In-insert :
      (ys : List DeferredSyncItem)
      → (In a (x ∷ ys) → In a (insert_item x ys)) × (In a (insert_item x ys) → In a (x ∷ ys))
  unfolding insert_item
  In-insert [] = (λ i. i, λ i. i)
  In-insert (y ∷ ys) =
      let (into, out) = In-insert ys in
      elim (Bool-cases (precedes x y)) [
        | inl first ↦ rw first (λ i. i, λ i. i)
        | inr later ↦
            rw later (λ i. In-under y into (In-swap x y i), λ i. In-swap y x (In-under y out i))
      ]

pub In-sort :
    (a : DeferredSyncItem) (xs : List DeferredSyncItem)
    → (In a xs → In a (sort_items xs)) × (In a (sort_items xs) → In a xs)
unfolding sort_items
In-sort a [] = (λ i. i, λ i. i)
In-sort a (x ∷ xs) =
    let (into, out) = In-sort a xs in
    let (into', out') = In-insert a x (sort_items xs) in
    (λ i. into' (In-under x into i), λ i. In-under x out (out' i))

length-insert_item :
    (x : DeferredSyncItem) (ys : List DeferredSyncItem)
    → length (insert_item x ys) ≡ suc (length ys)
unfolding insert_item
length-insert_item x [] = refl
length-insert_item x (y ∷ ys) = ground (arith, length-insert_item x ys)

pub length-sort : (xs : List DeferredSyncItem) → length (sort_items xs) ≡ length xs
unfolding sort_items
length-sort [] = refl
length-sort (x ∷ xs) = length-insert_item x (sort_items xs) ∙ ap suc (length-sort xs)

module _ (session_id : ℕ) (a : DeferredSyncItem) where
  pub In-items_of :
      (xs : List DeferredSyncItem)
      → In a xs
      → a.owner ≡ session_id
      → In a (items_of session_id true xs)
  unfolding items_of
  In-items_of [] i mine = elim i [ ]
  In-items_of (x ∷ xs) i mine = elim (Bool-cases (x.owner == session_id)) [
    | inl e ↦ rw e (In-under x (λ j. In-items_of xs j mine) i)
    | inr e ↦ rw e (elim (In-cons i) [ inl same ↦ other e same | inr j ↦ In-items_of xs j mine ])
  ]
    where
      other : (x.owner == session_id) ≡ false → a ≡ x → In a (items_of session_id true xs)
      other e same = absurd (ground (arith, ap (λ (y : DeferredSyncItem). y.owner) same))

  pub items_of-In :
      (xs : List DeferredSyncItem)
      → In a (items_of session_id true xs)
      → In a xs × (a.owner ≡ session_id)
  unfolding items_of
  items_of-In [] i = elim i [ ]
  items_of-In (x ∷ xs) i = elim (Bool-cases (x.owner == session_id)) [
    | inl e ↦ from_kept ((==_iff x.owner session_id).0 e) (items_of-In xs) (kept e i)
    | inr e ↦ (let (j, mine) = items_of-In xs (dropped e i) in (there j, mine))
  ]
    where
      from_kept :
          x.owner ≡ session_id
          → (In a (items_of session_id true xs) → In a xs × (a.owner ≡ session_id))
          → In a (x ∷ items_of session_id true xs)
          → In a (x ∷ xs) × (a.owner ≡ session_id)
      from_kept e ih i = elim (In-cons i) [
        | inl same ↦ (
          subst (λ y. In y (x ∷ xs)) (sym same) here,
          ap (λ (y : DeferredSyncItem). y.owner) same ∙ e,
        )
        | inr j ↦ (let (k, mine) = ih j in (there k, mine))
      ]

      kept :
          (x.owner == session_id) ≡ true
          → In a (
              if x.owner == session_id
              then x ∷ items_of session_id true xs
              else items_of session_id true xs)
          → In a (x ∷ items_of session_id true xs)
      kept e j =
          subst
            (λ b. In a (if b then x ∷ items_of session_id true xs else items_of session_id true xs))
            e j

      dropped :
          (x.owner == session_id) ≡ false
          → In a (
              if x.owner == session_id
              then x ∷ items_of session_id true xs
              else items_of session_id true xs)
          → In a (items_of session_id true xs)
      dropped e j =
          subst
            (λ b. In a (if b then x ∷ items_of session_id true xs else items_of session_id true xs))
            e j
