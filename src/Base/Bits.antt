-- ===== src/Base/Bits.antt =====
-- The binary digits of a mask, and what `&`, `|` and `& ~` make of them.
use Prim.Native.Nat.{
  ℕ, zero, suc, ◌+◌, ◌-◌, ◌*◌, ◌/◌, ◌%◌, ◌^◌, ◌≤◌, ◌<◌, min, max, bit_and, bit_or, digits,
  bit_and-bitwise, bit_or-bitwise,
}
use mathlib.Core.Path.{◌≡◌, refl, ◌∙◌, ap}
use mathlib.Core.Logic.{inl, inr}
use mathlib.Core.Bool.{Bool, true, false, not, ◌&&◌, ◌||◌}
use native.Mathlib.Omega.{arith}
use hokora.Base.Tests.{◌==◌, Bool-cases}

-- `a & ~b`: what `a` has in common with `b` is taken off it.
unfoldable pub and_not : ℕ → ℕ → ℕ
and_not a b = a - bit_and a b

-- Whether digit `i` of a mask is set, the lowest is digit 0.
unfoldable pub bit : ℕ → ℕ → Bool
bit zero a = a % 2 == 1
bit (suc i) a = bit i (a / 2)

pub bit-zero : (i : ℕ) → bit i 0 ≡ false
unfolding bit
bit-zero zero = refl
bit-zero (suc i) = bit-zero i

-- Masks with the same digits are the same.
bit_ext_fuel : (n a b : ℕ) → a ≤ n → b ≤ n → ((i : ℕ) → bit i a ≡ bit i b) → a ≡ b
unfolding bit
bit_ext_fuel zero a b p q h = omega arith
bit_ext_fuel (suc n) a b p q h =
    let halves = bit_ext_fuel n (a / 2) (b / 2) (omega arith) (omega arith) (λ i. h (suc i)) in
    ground (arith, halves, h 0)

pub bit_ext : (a b : ℕ) → ((i : ℕ) → bit i a ≡ bit i b) → a ≡ b
bit_ext a b = bit_ext_fuel (a + b) a b (omega arith) (omega arith)

-- An operation on masks that recurs on its first number works digit by digit, where it does on one
-- digit and where the first number has run out.
module _ (rest : ℕ → ℕ) (f : ℕ → ℕ → ℕ) (op : Bool → Bool → Bool)
    (runs_out : (i b : ℕ) → bit i (rest b) ≡ op false (bit i b))
    (one_digit : (x y : ℕ)
      → x < 2
      → y < 2
      → (f x y < 2) × ((f x y == 1) ≡ op (x == 1) (y == 1))) where
  bit-digits_out : (i b : ℕ) → bit i (rest b) ≡ op (bit i 0) (bit i b)
  bit-digits_out i b = rw (bit-zero i) (runs_out i b)

  bit-digits : (i n a b : ℕ) → a ≤ n → bit i (digits rest f n a b) ≡ op (bit i a) (bit i b)
  unfolding bit
  bit-digits i zero zero b h = bit-digits_out i b
  bit-digits i zero (suc a) b h = absurd (omega arith)
  bit-digits i (suc n) zero b h = bit-digits_out i b
  bit-digits zero (suc n) (suc a) b h =
      let (small, same) = one_digit (suc a % 2) (b % 2) (omega arith) (omega arith) in
      let higher = digits rest f n (suc a / 2) (b / 2) in
      let low : (higher * 2 + f (suc a % 2) (b % 2)) % 2 ≡ f (suc a % 2) (b % 2) = omega arith in
      rw low same
  bit-digits (suc i) (suc n) (suc a) b h =
      let (small, same) = one_digit (suc a % 2) (b % 2) (omega arith) (omega arith) in
      let higher = digits rest f n (suc a / 2) (b / 2) in
      let half : (higher * 2 + f (suc a % 2) (b % 2)) / 2 ≡ higher = omega arith in
      rw half (bit-digits i n (suc a / 2) (b / 2) (omega arith))

pub bit-bit_and : (i a b : ℕ) → bit i (bit_and a b) ≡ (bit i a && bit i b)
bit-bit_and i a b = rw (bit_and-bitwise a b) (
    bit-digits (λ b. 0) min ◌&&◌ (λ i b. bit-zero i) (λ x y p q. (omega arith, ground arith)) i a a
      b (omega arith))

pub bit-bit_or : (i a b : ℕ) → bit i (bit_or a b) ≡ (bit i a || bit i b)
bit-bit_or i a b = rw (bit_or-bitwise a b) (
    bit-digits (λ b. b) max ◌||◌ (λ i b. refl) (λ x y p q. (omega arith, ground arith)) i a a b
      (omega arith))

-- Fewer digits make a smaller number.
included_le : (n c a : ℕ) → c ≤ n → ((i : ℕ) → bit i c ≡ true → bit i a ≡ true) → c ≤ a
unfolding bit
included_le zero c a p h = omega arith
included_le (suc n) c a p h =
    let halves : c / 2 ≤ a / 2 = included_le n (c / 2) (a / 2) (omega arith) (λ i. h (suc i)) in
    ground (arith, h 0)

-- Where each digit of `c` is one of `a`, nothing is borrowed.
bit-minus :
    (i a c : ℕ)
    → ((j : ℕ) → bit j c ≡ true → bit j a ≡ true)
    → bit i (a - c) ≡ (bit i a && not (bit i c))
unfolding bit
bit-minus zero a c h = let less = included_le c c a (omega arith) h in ground (arith, h 0)
bit-minus (suc i) a c h =
    let less : c / 2 ≤ a / 2 = included_le c (c / 2) (a / 2) (omega arith) (λ i. h (suc i)) in
    let half : (a - c) / 2 ≡ a / 2 - c / 2 = ground (arith, h 0) in
    rw half (bit-minus i (a / 2) (c / 2) (λ j. h (suc j)))

pub bit-and_not : (i a b : ℕ) → bit i (and_not a b) ≡ (bit i a && not (bit i b))
bit-and_not i a b =
    let common = bit-bit_and i a b in
    let minus = bit-minus i a (bit_and a b) (λ j h. ground (arith, bit-bit_and j a b)) in
    unfold and_not in ground (arith, minus, common)

bit-power : (j i : ℕ) → bit j (2 ^ i) ≡ (j == i)
unfolding bit
bit-power zero zero = refl
bit-power zero (suc i) = ground arith
bit-power (suc j) zero = ground (arith, bit-zero j)
bit-power (suc j) (suc i) =
    let half : 2 ^ suc i / 2 ≡ 2 ^ i = omega arith in rw half (ground (arith, bit-power j i))

-- A test against a mask of one digit reads that digit.
pub bit_and-pow : (i a : ℕ) → bit i a ≡ not (bit_and a (2 ^ i) == 0)
bit_and-pow i a = elim (Bool-cases (bit i a)) [
  | inl t ↦
      let set : bit i (bit_and a (2 ^ i)) ≡ true =
        ground (arith, bit-bit_and i a (2 ^ i), bit-power i i) in
      elim (Bool-cases (bit_and a (2 ^ i) == 0)) [
        | inl e ↦
            let none_set : bit_and a (2 ^ i) ≡ 0 = ground arith in
            ground (arith, ap (bit i) none_set, bit-zero i)
        | inr e ↦ rw (t, e) refl
      ]
  | inr f ↦
      let none_set : bit_and a (2 ^ i) ≡ 0 = bit_ext _ 0 (λ j. elim (Bool-cases (j == i)) [
        | inl e ↦
            let same : j ≡ i = ground arith in
            let unset : bit j a ≡ false = ap (λ (k : ℕ). bit k a) same ∙ f in
            ground (arith, bit-bit_and j a (2 ^ i), bit-zero j)
        | inr e ↦ ground (arith, bit-bit_and j a (2 ^ i), bit-power j i, bit-zero j)
      ]) in
      rw (f, none_set) refl
]
