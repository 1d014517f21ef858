-- ===== src/Federation/Mirror/Recovery.antt =====
-- A mirror that has lost its link, or has not found its peer, always has a retry ahead.
use hokora.Base.{
  ℕ, ◌+◌, ◌≡◌, refl, inl, inr, Bool, true, false, not, ◌&&◌, ◌||◌, Option, none, some, arith,
  Bool-cases, Option-cases,
}
use hokora.Federation.Mirror.{
  ChannelMirror, MirrorState, closed, waiting_for_path, Answer, no_identity, link_raises, link_made,
  schedule_retry, handle_recall_none, is_wakeable, connect, start, wake, stop, on_linked, on_closed,
  reconnect,
}

abbrev pub is_pending : Option ℕ → Bool
is_pending none = false
is_pending (some delay) = true

-- A running mirror knows the network, and where it has no link and seeks none a timer is pending.
abbrev pub is_recoverable : Bool → Bool → MirrorState → Option ℕ → Bool
is_recoverable running has_reticulum state timer =
    not running || (has_reticulum && (not (is_wakeable state) || is_pending timer))

abbrev pub recoverable : ChannelMirror → Bool
recoverable m = is_recoverable m.running m.has_reticulum m.state m.pending_timer

-- A retry that did not raise armed the timer, unless the mirror was stopped.
schedule_retry_lem :
    (m : ChannelMirror) (jitter : ℕ)
    → (not m.running || m.has_reticulum) ≡ true
    → (schedule_retry m jitter).2 ≡ false
    → recoverable (schedule_retry m jitter).1 ≡ true
unfolding schedule_retry
schedule_retry_lem m jitter knows fine = ground arith

connect_lem :
    (m : ChannelMirror) (answer : Answer) (jitter : ℕ)
    → (not m.running || m.has_reticulum) ≡ true
    → (connect m answer jitter).2 ≡ false
    → recoverable (connect m answer jitter).1 ≡ true
unfolding connect handle_recall_none
connect_lem m no_identity jitter knows fine = ground (
  arith,
  schedule_retry_lem
      (record m { recall_none_attempts = m.recall_none_attempts + 1; state = waiting_for_path })
      jitter knows,
)
connect_lem m link_raises jitter knows fine =
    ground (arith, schedule_retry_lem (record m { state = closed }) jitter knows)
connect_lem m (link_made link) jitter knows fine = ground arith

on_linked_lem : (m : ChannelMirror) → recoverable m ≡ true → recoverable (on_linked m).1 ≡ true
unfolding on_linked
on_linked_lem m r = elim (Option-cases m.link) [
  | inl e ↦ rw e (ground arith)
  | inr (link, e) ↦ rw e (ground arith)
]

-- What happens to a mirror: it is started and stopped, RNS reports that its link is established or
-- closed, its timer fires and announces wake it, in any order. No call raises; `Retry` says
-- when one does.
pub data Life : ChannelMirror → Type 0 where
  made : {m : ChannelMirror} → m.running ≡ false → Life m
  started :
      {m : ChannelMirror} (answer : Answer) (jitter : ℕ)
      → (start m answer jitter).2 ≡ false
      → Life m
      → Life (start m answer jitter).1
  stopped : {m : ChannelMirror} → Life m → Life (stop m).1
  link_up : {m : ChannelMirror} → (on_linked m).2 ≡ false → Life m → Life (on_linked m).1
  link_down :
      {m : ChannelMirror} (jitter : ℕ)
      → (on_closed m jitter).2 ≡ false
      → Life m
      → Life (on_closed m jitter).1
  fired :
      {m : ChannelMirror} (answer : Answer) (jitter : ℕ)
      → (reconnect m answer jitter).2 ≡ false
      → Life m
      → Life (reconnect m answer jitter).1
  woken :
      {m : ChannelMirror} (answer : Answer) (jitter : ℕ)
      → (wake m answer jitter).1.2 ≡ false
      → Life m
      → Life (wake m answer jitter).1.1

on_closed_lem :
    (m : ChannelMirror) (jitter : ℕ)
    → recoverable m ≡ true
    → (on_closed m jitter).2 ≡ false
    → recoverable (on_closed m jitter).1 ≡ true
unfolding on_closed
on_closed_lem m jitter r fine =
    schedule_retry_lem (record m { authenticated = false; state = closed; link = none }) jitter
      (ground arith) fine

reconnect_lem :
    (m : ChannelMirror) (answer : Answer) (jitter : ℕ)
    → recoverable m ≡ true
    → (reconnect m answer jitter).2 ≡ false
    → recoverable (reconnect m answer jitter).1 ≡ true
unfolding reconnect
reconnect_lem m answer jitter r fine = elim (Bool-cases (m.running && m.has_reticulum)) [
  | inl go ↦ rw go (
      connect_lem (record m { pending_timer = none }) answer jitter (ground arith)
        (fine_connect go))
  | inr stay ↦ rw stay (ground arith)
]
  where
    fine_connect :
        (m.running && m.has_reticulum) ≡ true
        → (connect (record m { pending_timer = none }) answer jitter).2 ≡ false
    fine_connect go = ground arith

wake_lem :
    (m : ChannelMirror) (answer : Answer) (jitter : ℕ)
    → recoverable m ≡ true
    → (wake m answer jitter).1.2 ≡ false
    → recoverable (wake m answer jitter).1.1 ≡ true
unfolding wake
wake_lem m answer jitter r fine = elim (Bool-cases (m.running && is_wakeable m.state)) [
  | inl go ↦ rw go (
      connect_lem (record m { pending_timer = none }) answer jitter (ground arith)
        (fine_connect go))
  | inr stay ↦ rw stay r
]
  where
    fine_connect :
        (m.running && is_wakeable m.state) ≡ true
        → (connect (record m { pending_timer = none }) answer jitter).2 ≡ false
    fine_connect go = ground arith

recovers : {m : ChannelMirror} → Life m → recoverable m ≡ true
unfolding start stop
recovers (made off) = ground arith
recovers (started {m = m} answer jitter fine l) =
    connect_lem (record m { running = true; has_reticulum = true }) answer jitter refl fine
recovers (stopped l) = refl
recovers (link_up {m = m} fine l) = on_linked_lem m (recovers l)
recovers (link_down {m = m} jitter fine l) = on_closed_lem m jitter (recovers l) fine
recovers (fired {m = m} answer jitter fine l) = reconnect_lem m answer jitter (recovers l) fine
recovers (woken {m = m} answer jitter fine l) = wake_lem m answer jitter (recovers l) fine

-- A mirror is made not running. At every moment of a life of starts, stops, link events, timer
-- firings and wake-ups in which no call raised, where it runs and is closed or waits for a path
-- it has a retry timer pending.
pub Life-recoverable :
    {m : ChannelMirror}
    → Life m
    → m.running ≡ true
    → is_wakeable m.state ≡ true
    → is_pending m.pending_timer ≡ true
Life-recoverable l running wakeable = let r = recovers l in ground arith
