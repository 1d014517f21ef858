-- ===== src/Security/RateLimit/Limiter.antt =====
-- The table of buckets: bounded, and one identity's calls do not touch another's bucket.
use hokora.Base.{
  ℕ, ◌+◌, ◌≤◌, ◌<◌, ◌≡◌, ◌≢◌, refl, inl, inr, not, ltb, ◌*◌, arith, length, Option-cases,
}
use hokora.Base.Keys.{number_key}
use hokora.Dict.{lookup}
use hokora.Dict.Laws.{lookup-insert, length-insert, contains-lookup, length-keep-le}
use hokora.Security.RateLimit.{
  RateLimiter, TokenBucket, max_rate_limit_buckets, second, consume, cleanup_stale, fresh_bucket,
  make_room, track, charge, check_rate_limit,
}

length-charge :
    (l : RateLimiter) (identity now : ℕ)
    → length (charge l identity now).1.buckets ≡ length l.buckets
unfolding charge
length-charge l identity now = elim (Option-cases (lookup identity l.buckets)) [
  | inl e ↦ rw (e, charge) refl
  | inr (b, e) ↦
      rw (e, charge)
        (ground (
          arith,
          length-insert identity (consume b 1 now).1 l.buckets,
          contains-lookup identity l.buckets,
        ))
]

length-make_room-le :
    (l : RateLimiter) (size now : ℕ) → length (make_room l size now).buckets ≤ length l.buckets
unfolding make_room cleanup_stale
length-make_room-le l size now = ground (
  arith,
  length-keep-le (λ (b : TokenBucket). not (ltb (b.last_refill + 600 * second) now)) l.buckets,
)

length-track-le :
    (l : RateLimiter) (identity now : ℕ)
    → length l.buckets ≤ max_rate_limit_buckets
    → length (track l identity now).1.buckets ≤ max_rate_limit_buckets
unfolding track
length-track-le l identity now h =
    let l' = make_room l (length l.buckets) now in
    ground (
      arith,
      length-make_room-le l (length l.buckets) now,
      length-insert identity (fresh_bucket l' now) l'.buckets,
    )

-- The table never holds more than `MAX_RATE_LIMIT_BUCKETS` buckets, whether a call is allowed or
-- raises.
pub check_rate_limit_bounded :
    (l : RateLimiter) (identity now : ℕ)
    → length l.buckets ≤ max_rate_limit_buckets
    → length (check_rate_limit l identity now).1.buckets ≤ max_rate_limit_buckets
unfolding check_rate_limit
check_rate_limit_bounded l identity now h = ground (
  arith,
  length-charge l identity now,
  length-track-le l identity now h,
  length-charge (track l identity now).1 identity now,
)

lookup-charge :
    (l : RateLimiter) (identity other now : ℕ)
    → other ≢ identity
    → lookup other (charge l identity now).1.buckets ≡ lookup other l.buckets
unfolding charge
lookup-charge l identity other now ne = elim (Option-cases (lookup identity l.buckets)) [
  | inl e ↦ rw (e, charge) refl
  | inr (b, e) ↦
      rw (e, charge) (ground (arith, lookup-insert identity other (consume b 1 now).1 l.buckets))
]

-- While the table has room, or the caller is known, a call leaves every other identity's bucket.
pub check_rate_limit_others :
    (l : RateLimiter) (identity other now : ℕ)
    → other ≢ identity
    → length l.buckets < max_rate_limit_buckets
    → lookup other (check_rate_limit l identity now).1.buckets ≡ lookup other l.buckets
unfolding check_rate_limit track make_room
check_rate_limit_others l identity other now ne room = ground (
  arith,
  lookup-charge l identity other now ne,
  lookup-charge (track l identity now).1 identity other now ne,
  lookup-insert identity other (fresh_bucket l now) l.buckets,
)
