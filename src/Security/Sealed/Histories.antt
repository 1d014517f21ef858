-- ===== src/Security/Sealed/Histories.antt =====
-- src/hokora/security/sealed.py: the history of a channel's keys, and what trimming it keeps.
use hokora.Base.{
  ℕ, zero, suc, ◌-◌, ◌≤◌, ◌<◌, ◌≡◌, refl, none, some, List, [], ◌∷◌, ◌++◌, arith, ltb, length, drop,
  length-append, inl, inr, Bool-cases,
}
use hokora.Base.Keys.{number_key}
use hokora.Security.Sealed.{KeyInfo, find_epoch, trimmed}

-- All epochs of a history lie below a number.
abbrev pub Below : ℕ → List KeyInfo → Type 0
Below n [] = Unit {0}
Below n (p ∷ ps) = (p.epoch < n) × Below n ps

pub Below-le : (n m : ℕ) (ps : List KeyInfo) → n ≤ m → Below n ps → Below m ps
Below-le n m [] h b = tt
Below-le n m (p ∷ ps) h b = (omega arith, Below-le n m ps h b.1)

pub Below-append :
    (n : ℕ) (ps : List KeyInfo) (x : KeyInfo) → Below n ps → x.epoch < n → Below n (ps ++ x ∷ [])
Below-append n [] x b h = (h, tt)
Below-append n (p ∷ ps) x b h = (b.0, Below-append n ps x b.1 h)

Below-drop : (n k : ℕ) (ps : List KeyInfo) → Below n ps → Below n (drop k ps)
Below-drop n zero ps b = b
Below-drop n (suc k) [] b = tt
Below-drop n (suc k) (p ∷ ps) b = Below-drop n k ps b.1

pub Below-trimmed : (n : ℕ) (ps : List KeyInfo) → Below n ps → Below n (trimmed ps)
unfolding trimmed
Below-trimmed n ps b = elim (Bool-cases (ltb 5 (length ps))) [
  | inl e ↦ rw e (Below-drop n (length ps - 5) ps b)
  | inr e ↦ rw e b
]

pub Below-find : (n : ℕ) (ps : List KeyInfo) → Below n ps → find_epoch n ps ≡ none
unfolding find_epoch
Below-find n [] b = refl
Below-find n (p ∷ ps) b = ground (arith, Below-find n ps b.1, b.0)

find-drop : (e k : ℕ) (ps : List KeyInfo) → find_epoch e ps ≡ none → find_epoch e (drop k ps) ≡ none
unfolding find_epoch
find-drop e zero ps h = h
find-drop e (suc k) [] h = refl
find-drop e (suc k) (p ∷ ps) h = find-drop e k ps (ground (arith, h))

pub find_epoch-append :
    (x : KeyInfo) (ps rest : List KeyInfo)
    → find_epoch x.epoch ps ≡ none
    → find_epoch x.epoch (ps ++ x ∷ rest) ≡ some x
unfolding find_epoch
find_epoch-append x [] rest h = ground arith
find_epoch-append x (p ∷ ps) rest h = ground (arith, find_epoch-append x ps rest)

drop-append {ℓ} :
    {A : Type ℓ} (k : ℕ) (xs ys : List A) → k ≤ length xs → drop k (xs ++ ys) ≡ drop k xs ++ ys
drop-append zero xs ys h = refl
drop-append (suc k) [] ys h = absurd (omega arith)
drop-append (suc k) (x ∷ xs) ys h = drop-append k xs ys (omega arith)

-- An entry with at most four behind it survives.
pub trimmed_keeps :
    (x : KeyInfo) (ps rest : List KeyInfo)
    → find_epoch x.epoch ps ≡ none
    → length rest ≤ 4
    → (qs : List KeyInfo) × (trimmed (ps ++ x ∷ rest) ≡ qs ++ x ∷ rest)
      × (find_epoch x.epoch qs ≡ none)
unfolding trimmed
trimmed_keeps x ps rest h l =
    let n = length (ps ++ x ∷ rest) in
    let size = length-append ps (x ∷ rest) in
    elim (Bool-cases (ltb 5 n)) [
      | inl e ↦ (
        drop (n - 5) ps,
        rw e (drop-append (n - 5) ps (x ∷ rest) (ground (arith, size))),
        find-drop x.epoch (n - 5) ps h,
      )
      | inr e ↦ (ps, rw e refl, h)
    ]
