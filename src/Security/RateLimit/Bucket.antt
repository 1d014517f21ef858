-- ===== src/Security/RateLimit/Bucket.antt =====
-- What one bucket lets through over a run of calls.
use hokora.Base.{
  ℕ, suc, ◌+◌, ◌*◌, ◌≤◌, ◌≡◌, ap, Bool, true, false, List, [], ◌∷◌, arith, if◌then◌else◌,
}
use hokora.Base.Int.{ℤ, pos, negsuc, pos_part, ◌≤ℤ◌}
use hokora.Security.RateLimit.{TokenBucket, second, consume}

-- The number of calls of `consume()` that are allowed, and the bucket after them.
abbrev pub consume_all : TokenBucket → List ℕ → ℕ × TokenBucket
consume_all b [] = (0, b)
consume_all b (now ∷ times) =
    let (allowed, b') = consume b 1 now in
    let (n, b'') = consume_all b' times in (if allowed then suc n else n, b'')

-- The times of the calls, from `start` on, do not run backwards, and end at `stop`.
abbrev pub Ordered : ℕ → List ℕ → ℕ → Type 0
Ordered start [] stop = start ≡ stop
Ordered start (now ∷ times) stop = (start ≤ now) × Ordered now times stop

-- A bucket's balance is between zero and its maximum.
pub record IsWithin (b : TokenBucket) : Type 0 where
  pub low : pos 0 ≤ℤ b.tokens
  pub high : b.tokens ≤ℤ pos (b.max_tokens * second)

scaled_mono : (a b r : ℕ) → a ≤ b → a * r ≤ b * r
scaled_mono a b r h = grind arith

-- One call: what it lets through is paid for by the balance and the refill.
pub record Charges (b : TokenBucket) (now : ℕ) (result : Bool × TokenBucket) : Type 0 where
  pub same_max : result.1.max_tokens ≡ b.max_tokens
  pub same_rate : result.1.refill_rate ≡ b.refill_rate
  pub stamped : result.1.last_refill ≡ now
  pub within : IsWithin result.1
  pub paid :
      (if result.0 then second else 0) + pos_part result.1.tokens + b.last_refill * b.refill_rate
      ≤ pos_part b.tokens + now * b.refill_rate

consume-Charges :
    (b : TokenBucket) (now : ℕ) → IsWithin b → b.last_refill ≤ now → Charges b now (consume b 1 now)
unfolding consume
consume-Charges b now w h =
    let up = scaled_mono b.last_refill now b.refill_rate h in
    record {
      same_max = ground arith;
      same_rate = ground arith;
      stamped = ground arith;
      within = record { low = ground arith; high = ground arith };
      paid = ground arith;
    }

add_payment :
    (allowed : Bool) (n left spent stop full now : ℕ)
    → (if allowed then second else 0) + left + spent ≤ full + now
    → n * second + now ≤ left + stop
    → (if allowed then suc n else n) * second + spent ≤ full + stop
add_payment true n left spent stop full now h k = omega arith
add_payment false n left spent stop full now h k = omega arith

consume_all-paid :
    (b : TokenBucket) (times : List ℕ) (stop : ℕ)
    → IsWithin b
    → Ordered b.last_refill times stop
    → (consume_all b times).0 * second + b.last_refill * b.refill_rate
      ≤ pos_part b.tokens + stop * b.refill_rate
consume_all-paid b [] stop w o = omega (arith, ap (λ (t : ℕ). t * b.refill_rate) o)
consume_all-paid b (now ∷ times) stop w o =
    let c = consume-Charges b now w o.0 in
    let b' = (consume b 1 now).1 in
    let rest = consume_all-paid b' times stop c.within (rw c.stamped o.1) in
    add_payment (consume b 1 now).0 (consume_all b' times).0 (pos_part b'.tokens)
      (b.last_refill * b.refill_rate) (stop * b.refill_rate) (pos_part b.tokens)
      (now * b.refill_rate) c.paid (rw (c.same_rate, c.stamped) at rest)

pos_part-le : (x : ℤ) (n : ℕ) → x ≤ℤ pos n → pos_part x ≤ n
pos_part-le (pos k) n h = omega arith
pos_part-le (negsuc k) n h = omega arith

-- Over any run of calls of consume at times that do not run backwards, a bucket whose balance is
-- between zero and its maximum allows at most its capacity and what the refill rate adds between
-- its last refill and the last call.
pub consume_all_bound :
    (b : TokenBucket) (times : List ℕ) (stop : ℕ)
    → IsWithin b
    → Ordered b.last_refill times stop
    → (consume_all b times).0 * second + b.last_refill * b.refill_rate
      ≤ b.max_tokens * second + stop * b.refill_rate
consume_all_bound b times stop w o =
    omega (
      arith,
      consume_all-paid b times stop w o,
      pos_part-le b.tokens (b.max_tokens * second) w.high,
    )
