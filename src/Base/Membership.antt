-- ===== src/Base/Membership.antt =====
-- An element stands in a list.
use mathlib.Core.Path.{◌≡◌, refl}
use mathlib.Core.Logic.{◌⊎◌, inl, inr}
use mathlib.Core.List.{List, [], ◌∷◌, ◌++◌}

pub data In {ℓ} {A : Type ℓ} (a : A) : List A → Type ℓ where
  here : {xs : List A} → In a (a ∷ xs)
  there : {x : A} {xs : List A} → In a xs → In a (x ∷ xs)

module _ {ℓ} {A : Type ℓ} {a : A} where
  pub In-append_left : {xs : List A} (ys : List A) → In a xs → In a (xs ++ ys)
  In-append_left ys here = here
  In-append_left ys (there i) = there (In-append_left ys i)

  pub In-append_right : (xs : List A) {ys : List A} → In a ys → In a (xs ++ ys)
  In-append_right [] i = i
  In-append_right (x ∷ xs) i = there (In-append_right xs i)

pub In-cons {ℓ} : {A : Type ℓ} {a x : A} {xs : List A} → In a (x ∷ xs) → (a ≡ x) ⊎ In a xs
In-cons here = inl refl
In-cons (there i) = inr i

pub In-under {ℓ} :
    {A : Type ℓ} {a : A} (x : A) {xs ys : List A}
    → (In a xs → In a ys)
    → In a (x ∷ xs)
    → In a (x ∷ ys)
In-under x f here = here
In-under x f (there i) = there (f i)

pub In-swap {ℓ} :
    {A : Type ℓ} {a : A} (x y : A) {xs : List A} → In a (x ∷ y ∷ xs) → In a (y ∷ x ∷ xs)
In-swap x y here = there here
In-swap x y (there here) = here
In-swap x y (there (there i)) = there (there i)
