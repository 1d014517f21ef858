-- ===== src/Federation/Mirror/Retry.antt =====
-- The delays between attempts, and where they end.
use native.Mathlib.Nat.{pow-suc}
use mathlib.Core.Path.{subst}
use hokora.Base.{
  ℕ, zero, suc, ◌+◌, ◌-◌, ◌*◌, ◌^◌, ◌≤◌, ◌<◌, ◌≡◌, ap, true, false, none, some, arith,
}
use hokora.Federation.Mirror.Recovery.{is_pending}
use hokora.Federation.Mirror.{
  ChannelMirror, waiting_for_path, no_identity, backoff_base, max_backoff, max_exponent, smaller,
  get_backoff_delay, schedule_retry, handle_recall_none, has_link, connect, reconnect, start,
}

one-le-pow : (n : ℕ) → 1 ≤ 2 ^ n
one-le-pow zero = omega arith
one-le-pow (suc n) = omega (arith, pow-suc 2 n, one-le-pow n)

large-pow : (n : ℕ) → 64 ≤ 2 ^ (n + 6)
large-pow zero = omega arith
large-pow (suc n) =
    let e : 2 ^ (suc n + 6) ≡ 2 ^ (suc (n + 6)) = ap (λ k. 2 ^ k) (omega arith) in
    omega (arith, e, pow-suc 2 (n + 6), large-pow n)

-- The spread of the jitter, half of the delay in milliseconds.
abbrev pub spread : ℕ → ℕ
spread attempt = smaller (backoff_base * 2 ^ attempt) max_backoff * 500

-- With a jitter of at most a quarter of the delay either way, a delay is at least 3.75 seconds
-- and at most 375, and from the sixth attempt on at least 225.
pub get_backoff_delay_bounds :
    (attempt jitter delay : ℕ)
    → jitter ≤ spread attempt
    → get_backoff_delay attempt jitter ≡ some delay
    → (3750 ≤ delay) × (delay ≤ 375000) × (6 ≤ attempt → 225000 ≤ delay)
unfolding get_backoff_delay
get_backoff_delay_bounds attempt jitter delay within h =
    (ground (arith, one-le-pow attempt), ground arith, λ many. ground (arith, large attempt many))
  where
    large : (n : ℕ) → 6 ≤ n → 64 ≤ 2 ^ n
    large n many = subst (λ k. 64 ≤ 2 ^ k) (omega arith) (large-pow (n - 6))

-- A mirror that was started with no identity to be found, and whose timer fired `n` times with
-- none found either.
abbrev pub offline : ℕ → ChannelMirror → ChannelMirror
offline zero m = (start m no_identity 0).1
offline (suc n) m = (reconnect (offline n m) no_identity 0).1

-- Where such a mirror is while its attempts are few.
pub record Waits (n : ℕ) (m : ChannelMirror) : Type 0 where
  pub is_running : m.running ≡ true
  pub has_network : m.has_reticulum ≡ true
  pub at : m.state ≡ waiting_for_path
  pub attempts : m.attempt ≡ n

module _ (m : ChannelMirror) (n : ℕ) (w : Waits n m) where
  retried :
      n < max_exponent
      → Waits (suc n) (reconnect m no_identity 0).1
        × (is_pending (reconnect m no_identity 0).1.pending_timer ≡ true)
  unfolding reconnect connect handle_recall_none schedule_retry get_backoff_delay
  retried few = (
    record {
      is_running = ground (arith, w.is_running, w.has_network, w.at, w.attempts);
      has_network = ground (arith, w.is_running, w.has_network, w.at, w.attempts);
      at = ground (arith, w.is_running, w.has_network, w.at, w.attempts);
      attempts = ground (arith, w.is_running, w.has_network, w.at, w.attempts);
    },
    ground (arith, w.is_running, w.has_network, w.at, w.attempts),
  )

  -- The call that computes the delay raises after the old timer is gone.
  exhausted :
      max_exponent ≤ n
      → ((reconnect m no_identity 0).2 ≡ true)
        × ((reconnect m no_identity 0).1.pending_timer ≡ none)
        × ((reconnect m no_identity 0).1.state ≡ waiting_for_path)
  unfolding reconnect connect handle_recall_none schedule_retry get_backoff_delay
  exhausted many = (
    ground (arith, w.is_running, w.has_network, w.at, w.attempts),
    ground (arith, w.is_running, w.has_network, w.at, w.attempts),
    ground (arith, w.is_running, w.has_network, w.at, w.attempts),
  )

started-Waits :
    (m : ChannelMirror)
    → has_link m.state ≡ false
    → m.attempt ≡ 0
    → Waits 1 (start m no_identity 0).1
      × (is_pending (start m no_identity 0).1.pending_timer ≡ true)
unfolding start connect handle_recall_none schedule_retry get_backoff_delay
started-Waits m apart fresh = (
  record {
    is_running = ground arith;
    has_network = ground arith;
    at = ground arith;
    attempts = ground arith;
  },
  ground arith,
)

offline-Waits :
    (m : ChannelMirror) (n : ℕ)
    → has_link m.state ≡ false
    → m.attempt ≡ 0
    → n < max_exponent
    → Waits (suc n) (offline n m) × (is_pending (offline n m).pending_timer ≡ true)
offline-Waits m zero apart fresh few = started-Waits m apart fresh
offline-Waits m (suc n) apart fresh few =
    let (w, pending) = offline-Waits m n apart fresh (omega arith) in
    retried (offline n m) (suc n) w (omega arith)

-- A mirror that has no link, seeks none and has made no attempt is started while its peer is
-- offline. As long as the timer fired fewer than 1024 times the next retry is pending; after the
-- 1024th firing the mirror waits for a path and has no retry ahead.
pub retries_end :
    (m : ChannelMirror)
    → has_link m.state ≡ false
    → m.attempt ≡ 0
    → ((n : ℕ) → n < max_exponent → is_pending (offline n m).pending_timer ≡ true)
      × ((offline max_exponent m).pending_timer ≡ none)
      × ((offline max_exponent m).state ≡ waiting_for_path)
retries_end m apart fresh =
    let (w, pending) = offline-Waits m 1023 apart fresh (omega arith) in
    let (raised, ended, at) = exhausted (offline 1023 m) 1024 w (omega arith) in
    (λ n few. (offline-Waits m n apart fresh few).1, ended, at)
