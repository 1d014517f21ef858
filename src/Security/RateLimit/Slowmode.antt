-- ===== src/Security/RateLimit/Slowmode.antt =====
-- Slowmode: what is enforced, and what the cleanup of old entries forgets.
use hokora.Base.{
  ◌↔◌, ◌⊎◌, ℕ, ◌+◌, ◌≤◌, ◌<◌, ◌≡◌, Bool, true, not, arith, length, ltb, if◌then◌else◌,
}
use hokora.Base.Keys.{pair_key}
use hokora.Dict.{lookup_or, insert}
use hokora.Dict.Laws.{IsUnique, insert-IsUnique, lookup-keep, lookup-insert_self}
use hokora.Result.{ok}
use hokora.Security.RateLimit.{
  RateLimiter, max_rate_limit_buckets, cleanup_stale, make_room, check_slowmode,
}

-- With room in the table: what is let through, and what the table remembers then.
module _ (l : RateLimiter) (identity channel slowmode now : ℕ) (pos : 0 < slowmode) where
  check_slowmode_iff :
      length l.slowmode_last < max_rate_limit_buckets
      → ((check_slowmode l identity channel slowmode now).0 ≡ ok true)
        ↔ (lookup_or (identity, channel) 0 l.slowmode_last + slowmode ≤ now)
  unfolding check_slowmode make_room
  check_slowmode_iff room = (λ h. ground arith, λ h. ground arith)

  check_slowmode-insert :
      length l.slowmode_last < max_rate_limit_buckets
      → (check_slowmode l identity channel slowmode now).0 ≡ ok true
      → (check_slowmode l identity channel slowmode now).1.slowmode_last
        ≡ insert (identity, channel) now l.slowmode_last
  unfolding check_slowmode make_room
  check_slowmode-insert room h = ground arith

-- What is left of a table after the cleanup at `mid`.
lookup_or-cleanup :
    (l l' : RateLimiter) (key : ℕ × ℕ) (age now mid : ℕ)
    → IsUnique l.slowmode_last
    → l'.slowmode_last ≡ insert key now l.slowmode_last
    → lookup_or key 0 (cleanup_stale l' age mid).slowmode_last
      ≡ (if ltb (now + age) mid then 0 else now)
unfolding cleanup_stale
lookup_or-cleanup l l' key age now mid u e =
    let young : ℕ → Bool = λ t. not (ltb (t + age) mid) in
    rw e (
      ground (
        arith,
        lookup-keep young key (insert key now l.slowmode_last)
            (insert-IsUnique key now l.slowmode_last u),
        lookup-insert_self key now l.slowmode_last,
      ))

-- A message of an identity was let through at `now`, and the cleanup ran at `mid`. The next message
-- is let through exactly if the slowmode has passed, or the cleanup has dropped the entry and the
-- clock itself is past the slowmode.
pub slowmode_after_cleanup :
    (l : RateLimiter) (identity channel slowmode age now mid later : ℕ)
    → 0 < slowmode
    → IsUnique l.slowmode_last
    → length l.slowmode_last < max_rate_limit_buckets
    → (check_slowmode l identity channel slowmode now).0 ≡ ok true
    → let l' = cleanup_stale (check_slowmode l identity channel slowmode now).1 age mid in
      length l'.slowmode_last < max_rate_limit_buckets
      → ((check_slowmode l' identity channel slowmode later).0 ≡ ok true)
        ↔ (now + slowmode ≤ later) ⊎ ((now + age < mid) × (slowmode ≤ later))
slowmode_after_cleanup l identity channel slowmode age now mid later pos u room h room' =
    let entry =
      lookup_or-cleanup l (check_slowmode l identity channel slowmode now).1 (identity, channel) age
        now mid u (check_slowmode-insert l identity channel slowmode now pos room h) in
    let l' = cleanup_stale (check_slowmode l identity channel slowmode now).1 age mid in
    let (only_if, if_) = check_slowmode_iff l' identity channel slowmode later pos room' in
    (λ accepted. ground (arith, only_if accepted, entry), λ passed. if_ (rw entry (ground arith)))
