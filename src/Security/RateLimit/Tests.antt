-- ===== src/Security/RateLimit/Tests.antt =====
-- Runs of the rate limiter, and its theorems at concrete inputs.
use hokora.Base.{◌+◌, ◌*◌, ◌≤◌, ◌<◌, ◌≡◌, ◌↔◌, ◌⊎◌, refl, true, [], ◌∷◌, arith, length}
use hokora.Base.Int.{pos}
use hokora.Base.Keys.{number_key, pair_key}
use hokora.Dict.{lookup, contains, insert, keep}
use hokora.Result.{ok, err}
use hokora.Security.RateLimit.{
  TokenBucket, RateLimiter, second, cleanup_stale, fresh_bucket, make_room, track, charge, consume,
  check_rate_limit, check_slowmode, exceeded,
}
use hokora.Security.RateLimit.Bucket.{consume_all, consume_all_bound}
use hokora.Security.RateLimit.Limiter.{check_rate_limit_bounded, check_rate_limit_others}
use hokora.Security.RateLimit.Slowmode.{slowmode_after_cleanup}

abbrev bucket : TokenBucket
bucket = record { tokens = pos 1_500_000; max_tokens = 10; refill_rate = 1; last_refill = 0 }

-- One call at once, one after the refill of half a token, and one too early.
three_calls : (consume_all bucket (0 ∷ 500_000 ∷ 600_000 ∷ [])).0 ≡ 2
unfolding consume
three_calls = refl

consume_all_bound_example :
    (consume_all bucket (0 ∷ 500_000 ∷ 600_000 ∷ [])).0 * second + 0 * 1 ≤ 10 * second + 600_000 * 1
consume_all_bound_example =
    consume_all_bound bucket (0 ∷ 500_000 ∷ 600_000 ∷ []) 600_000
      (record { low = omega arith; high = omega arith }) (omega arith)

abbrev limiter : RateLimiter
limiter = record { max_tokens = 1; refill_rate = 1; buckets = (7, bucket) ∷ []; slowmode_last = [] }

second_call_refused : (check_rate_limit (check_rate_limit limiter 8 0).1 8 10).0 ≡ err exceeded
unfolding check_rate_limit track make_room charge fresh_bucket consume contains lookup insert
second_call_refused = refl

check_rate_limit_bounded_at_input : length (check_rate_limit limiter 8 0).1.buckets ≤ 10_000
check_rate_limit_bounded_at_input = check_rate_limit_bounded limiter 8 0 (omega arith)

check_rate_limit_others_at_input :
    lookup 7 (check_rate_limit limiter 8 0).1.buckets ≡ lookup 7 limiter.buckets
check_rate_limit_others_at_input = check_rate_limit_others limiter 8 7 0 (omega arith) (omega arith)

-- A slowmode of two hours, and the hourly cleanup an hour and a second after the first message.
slowmode_after_cleanup_at_input :
    let l =
      cleanup_stale
        (check_slowmode limiter 8 1 (7200 * second) (9000 * second)).1
        (3600 * second)
        (12_601 * second) in
    ((check_slowmode l 8 1 (7200 * second) (12_601 * second)).0 ≡ ok true)
    ↔ (9000 * second + 7200 * second ≤ 12_601 * second)
      ⊎ ((9000 * second + 3600 * second < 12_601 * second) × (7200 * second ≤ 12_601 * second))
unfolding check_slowmode make_room cleanup_stale lookup insert keep
slowmode_after_cleanup_at_input =
    slowmode_after_cleanup limiter 8 1 (7200 * second) (3600 * second) (9000 * second)
      (12_601 * second) (12_601 * second) (omega arith) tt (omega arith) refl (omega arith)
