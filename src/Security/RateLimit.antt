-- ===== src/Security/RateLimit.antt =====
-- src/hokora/security/ratelimit.py: token buckets and slowmode. Times are microseconds and amounts of
-- tokens are millionths of a token, so that a refill of whole tokens a second is exact. The calls
-- of `time.time()` within one call return one `now`. A slowmode key, identity and channel joined by
-- a colon, is the pair: an identity hash is hexadecimal. The lock is held over each whole call.
pub mod Bucket
pub mod Limiter
pub mod Slowmode
mod Tests
use hokora.Base.{
  ℕ, ◌+◌, ◌*◌, Bool, true, false, not, Option, none, some, [], length, ltb, leb, ◌==◌,
  if◌then◌else◌,
}
use hokora.Base.Int.{ℤ, pos, sub_ℕ, min_ℤ, leb_ℤ, ◌+ℤ◌, ◌-ℤ◌}
use hokora.Base.Keys.{number_key, pair_key}
use hokora.Dict.{Dict, lookup, lookup_or, contains, insert, keep}
use hokora.Result.{Result, ok, err}

abbrev pub max_rate_limit_buckets : ℕ
max_rate_limit_buckets = 10_000

abbrev pub second : ℕ
second = 1_000_000

pub data RateLimitExceeded : Type 0 where
  too_many_identities exceeded too_many_slowmode slowmode_active : RateLimitExceeded

-- A clock that runs backwards can take `tokens` below zero.
pub record TokenBucket : Type 0 where
  pub tokens : ℤ
  pub max_tokens : ℕ
  pub refill_rate : ℕ
  pub last_refill : ℕ

-- `self.tokens` after the refill: `min(max_tokens, tokens + (now - last_refill) * refill_rate)`.
unfoldable pub refilled : TokenBucket → ℕ → ℤ
unfolding min_ℤ ◌+ℤ◌
refilled b now =
    min_ℤ (pos (b.max_tokens * second))
      (b.tokens +ℤ sub_ℕ (now * b.refill_rate) (b.last_refill * b.refill_rate))

unfoldable pub consume : TokenBucket → ℕ → ℕ → Bool × TokenBucket
unfolding refilled ◌-ℤ◌
consume b count now =
    let tokens = refilled b now in
    if leb_ℤ (pos (count * second)) tokens
    then (true, record b { tokens = tokens -ℤ pos (count * second); last_refill = now })
    else (false, record b { tokens = tokens; last_refill = now })

pub record RateLimiter : Type 0 where
  pub max_tokens : ℕ
  pub refill_rate : ℕ
  pub buckets : Dict ℕ TokenBucket
  pub slowmode_last : Dict (ℕ × ℕ) ℕ

-- `_cleanup_stale_locked`
unfoldable pub cleanup_stale : RateLimiter → ℕ → ℕ → RateLimiter
cleanup_stale l max_age now = record l {
  buckets = keep (λ b. not (ltb (b.last_refill + max_age) now)) l.buckets;
  slowmode_last = keep (λ t. not (ltb (t + max_age) now)) l.slowmode_last;
}

unfoldable pub fresh_bucket : RateLimiter → ℕ → TokenBucket
fresh_bucket l now = record {
  tokens = pos (l.max_tokens * second);
  max_tokens = l.max_tokens;
  refill_rate = l.refill_rate;
  last_refill = now;
}

-- The cleanup that a full table triggers.
unfoldable pub make_room : RateLimiter → ℕ → ℕ → RateLimiter
make_room l size now =
    if leb max_rate_limit_buckets size then cleanup_stale l (600 * second) now else l

-- The branch for an identity that has no bucket: whether there was room, and the limiter.
unfoldable pub track : RateLimiter → ℕ → ℕ → Bool × RateLimiter
track l identity now =
    let l' = make_room l (length l.buckets) now in
    if leb max_rate_limit_buckets (length l'.buckets)
    then (false, l')
    else (true, record l' { buckets = insert identity (fresh_bucket l' now) l'.buckets })

-- `bucket.consume()` on the bucket that the dict holds.
unfoldable pub charge : RateLimiter → ℕ → ℕ → Result RateLimitExceeded Bool × RateLimiter
charge l identity now = elim (lookup identity l.buckets) [
  | none ↦ (err exceeded, l)
  | some b ↦
      (let (allowed, b') = consume b 1 now in
        (
          if allowed then ok true else err exceeded,
          record l { buckets = insert identity b' l.buckets },
        ))
]

unfoldable pub check_rate_limit : RateLimiter → ℕ → ℕ → Result RateLimitExceeded Bool × RateLimiter
check_rate_limit l identity now =
    if contains identity l.buckets
    then charge l identity now
    else (let (room, l') = track l identity now in
        if room then charge l' identity now else (err too_many_identities, l'))

unfoldable pub check_slowmode :
    RateLimiter → ℕ → ℕ → ℕ → ℕ → Result RateLimitExceeded Bool × RateLimiter
check_slowmode l identity channel slowmode now =
    if slowmode == 0
    then (ok true, l)
    else (let l' = make_room l (length l.slowmode_last) now in
        if leb max_rate_limit_buckets (length l'.slowmode_last)
        then (err too_many_slowmode, l')
        else if ltb now (lookup_or (identity, channel) 0 l'.slowmode_last + slowmode)
        then (err slowmode_active, l')
        else (
          ok true,
          record l' { slowmode_last = insert (identity, channel) now l'.slowmode_last },
        ))
