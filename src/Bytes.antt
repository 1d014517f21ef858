-- ===== src/Bytes.antt =====
-- Byte strings as lists of numbers, and the big-endian fields of `struct.pack` and
-- `struct.unpack_from` (`>B`, `>H`, `>I`, `>Q`).
use native.Mathlib.Nat.{pow-suc}
use hokora.Base.{
  ℕ, zero, suc, ◌+◌, ◌*◌, ◌/◌, ◌%◌, ◌^◌, ◌<◌, ◌≡◌, refl, sym, ap, ◌∙◌, List, [], ◌∷◌, ◌++◌, arith,
  length, length-append, take, drop,
}

abbrev pub Bytes : Type 0
Bytes = List ℕ

-- `n.to_bytes(k, "big")`, for n below 256 ^ k.
unfoldable pub pack_be : ℕ → ℕ → Bytes
pack_be zero v = []
pack_be (suc k) v = pack_be k (v / 256) ++ (v % 256) ∷ []

unfoldable pub unpack_from : ℕ → Bytes → ℕ
unpack_from acc [] = acc
unpack_from acc (b ∷ bs) = unpack_from (acc * 256 + b) bs

-- `int.from_bytes(bs, "big")`
abbrev pub unpack_be : Bytes → ℕ
unpack_be bs = unpack_from 0 bs

unpack_from-snoc :
    (acc : ℕ) (bs : Bytes) (b : ℕ) → unpack_from acc (bs ++ b ∷ []) ≡ unpack_from acc bs * 256 + b
unfolding unpack_from
unpack_from-snoc acc [] b = refl
unpack_from-snoc acc (c ∷ bs) b = unpack_from-snoc (acc * 256 + c) bs b

pub unpack-pack : (k v : ℕ) → v < 256 ^ k → unpack_be (pack_be k v) ≡ v
unfolding pack_be
unpack-pack zero v h = unfold unpack_from in omega arith
unpack-pack (suc k) v h = omega (
  arith,
  unpack_from-snoc 0 (pack_be k (v / 256)) (v % 256),
  unpack-pack k (v / 256) (omega (arith, pow-suc 256 k)),
)

pub length-pack : (k v : ℕ) → length (pack_be k v) ≡ k
unfolding pack_be
length-pack zero v = refl
length-pack (suc k) v =
    omega (arith, length-append (pack_be k (v / 256)) ((v % 256) ∷ []), length-pack k (v / 256))

module _ {ℓ} {A : Type ℓ} where
  pub take-append : (n : ℕ) (xs ys : List A) → length xs ≡ n → take n (xs ++ ys) ≡ xs
  take-append zero [] ys h = refl
  take-append zero (x ∷ xs) ys h = absurd (omega arith)
  take-append (suc n) [] ys h = absurd (omega arith)
  take-append (suc n) (x ∷ xs) ys h = ap (λ l. x ∷ l) (take-append n xs ys (omega arith))

-- Fields laid end to end before a rest, and the bytes that they take.
unfoldable pub join : List Bytes → Bytes → Bytes
join [] rest = rest
join (x ∷ xs) rest = x ++ join xs rest

abbrev pub total : List Bytes → ℕ
total [] = 0
total (x ∷ xs) = length x + total xs

pub length-join : (xs : List Bytes) (rest : Bytes) → length (join xs rest) ≡ total xs + length rest
unfolding join
length-join [] rest = omega arith
length-join (x ∷ xs) rest = omega (arith, length-append x (join xs rest), length-join xs rest)

-- `data[start : start + n]`
unfoldable pub slice {ℓ} : {A : Type ℓ} → ℕ → ℕ → List A → List A
slice start n xs = take n (drop start xs)

drop-add {ℓ} :
    {A : Type ℓ} (n m : ℕ) (xs ys : List A) → length xs ≡ n → drop (n + m) (xs ++ ys) ≡ drop m ys
drop-add n m [] ys h = ap (λ k. drop k ys) (omega arith)
drop-add zero m (x ∷ xs) ys h = absurd (omega arith)
drop-add (suc n) m (x ∷ xs) ys h =
    ap (λ k. drop k (x ∷ (xs ++ ys))) {y = suc (n + m)} (omega arith)
    ∙ drop-add n m xs ys (omega arith)

-- What follows some fields starts where they end.
pub drop-join :
    (start : ℕ) (xs : List Bytes) (rest : Bytes)
    → total xs ≡ start
    → drop start (join xs rest) ≡ rest
unfolding join
drop-join start [] rest h = ap (λ k. drop k rest) (sym h)
drop-join start (x ∷ xs) rest h =
    ap (λ k. drop k (x ++ join xs rest)) (sym h)
    ∙ drop-add (length x) (total xs) x (join xs rest) refl
    ∙ drop-join (total xs) xs rest refl

pub slice-join :
    (start n : ℕ) (xs : List Bytes) (x rest : Bytes)
    → total xs ≡ start
    → length x ≡ n
    → slice start n (join xs (x ++ rest)) ≡ x
unfolding slice
slice-join start n xs x rest h e =
    ap (take n) (drop-join start xs (x ++ rest) h) ∙ take-append n x rest e
