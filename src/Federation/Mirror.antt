-- ===== src/Federation/Mirror.antt =====
-- src/hokora/federation/mirror.py: the life of one channel mirror. A call is taken as one step, as its
-- lock-protected transitions make it; what RNS answers to `Identity.recall` and `Link` is an
-- argument of the call that asks. A call returns what it puts out, the mirror after it, and whether
-- it raised. A pending timer is its delay in milliseconds.
pub mod Retry
pub mod Recovery
pub mod Cursor
pub mod Responses
mod Tests
use hokora.Base.{
  ℕ, ◌+◌, ◌*◌, ◌^◌, ◌≤◌, Bool, true, false, not, ◌&&◌, ◌||◌, Option, none, some, List, [], ◌∷◌,
  ◌++◌, leb, ltb, ◌==◌, if◌then◌else◌,
}
use hokora.Result.{Result, ok, err}
use hokora.Federation.EpochManager.{EpochManager}

pub data MirrorState : Type 0 where
  idle connecting linked closed waiting_for_path : MirrorState

-- What the attempt callback is told.
pub data Attempt : Type 0 where
  success recall_none link_failed : Attempt

pub data Output : Type 0 where
  attempted : Attempt → Output
  -- the history request on a link, with `since_seq`
  sync_request : ℕ → ℕ → Output
  -- `link.teardown()`, the handshake callback
  teardown_link : ℕ → Output
  handshake : Output

pub record ChannelMirror : Type 0 where
  pub running : Bool
  pub has_reticulum : Bool
  pub state : MirrorState
  pub link : Option ℕ
  pub cursor : ℕ
  pub pending_timer : Option ℕ
  pub attempt : ℕ
  pub recall_none_attempts : ℕ
  pub authenticated : Bool
  -- `_federation_auth and _handshake_callback`
  pub has_handshake : Bool
  pub has_response_callback : Bool
  pub has_push_ack_callback : Bool
  pub has_cursor_callback : Bool
  pub epoch_manager : Option EpochManager

-- What RNS answers to `_connect`.
pub data Answer : Type 0 where
  no_identity link_raises : Answer
  link_made : ℕ → Answer

abbrev pub Done : Type 0
Done = List Output × ChannelMirror × Bool

-- Seconds.
abbrev pub backoff_base : ℕ
backoff_base = 5

abbrev pub max_backoff : ℕ
max_backoff = 300

-- `float * int` raises OverflowError for an int from 2 ** 1024 on.
abbrev pub max_exponent : ℕ
max_exponent = 1024

abbrev pub smaller : ℕ → ℕ → ℕ
smaller a b = if leb a b then a else b

-- The delay is within a quarter of `delay`: `jitter` counts the milliseconds from the lower end.
unfoldable pub get_backoff_delay : ℕ → ℕ → Option ℕ
get_backoff_delay attempt jitter =
    if leb max_exponent attempt
    then none
    else some (smaller (backoff_base * 2 ^ attempt) max_backoff * 750 + jitter)

abbrev pub arm : ChannelMirror → Option ℕ → Done
arm m none = ([], record m { pending_timer = none }, true)
arm m (some delay) = ([], record m { pending_timer = some delay; attempt = m.attempt + 1 }, false)

unfoldable pub schedule_retry : ChannelMirror → ℕ → Done
schedule_retry m jitter =
    if m.running then arm m (get_backoff_delay m.attempt jitter) else ([], m, false)

-- Outputs before those of a call.
abbrev pub after : List Output → Done → Done
after outputs (outputs', m, raised) = (outputs ++ outputs', m, raised)

unfoldable pub handle_recall_none : ChannelMirror → ℕ → Done
handle_recall_none m jitter = after (attempted recall_none ∷ []) (
    schedule_retry
      (record m { recall_none_attempts = m.recall_none_attempts + 1; state = waiting_for_path })
      jitter)

abbrev pub answered : ChannelMirror → ℕ → Answer → Done
answered m jitter no_identity = handle_recall_none m jitter
answered m jitter link_raises =
    after (attempted link_failed ∷ []) (schedule_retry (record m { state = closed }) jitter)
answered m jitter (link_made link) = ([], record m { link = some link }, false)

-- `_state in (CONNECTING, LINKED)`
abbrev pub has_link : MirrorState → Bool
has_link idle = false
has_link connecting = true
has_link linked = true
has_link closed = false
has_link waiting_for_path = false

-- `_state in (WAITING_FOR_PATH, CLOSED)`
abbrev pub is_wakeable : MirrorState → Bool
is_wakeable idle = false
is_wakeable connecting = false
is_wakeable linked = false
is_wakeable closed = true
is_wakeable waiting_for_path = true

unfoldable pub connect : ChannelMirror → Answer → ℕ → Done
connect m answer jitter =
    if not m.running || has_link m.state
    then ([], m, false)
    else answered (record m { state = connecting }) jitter answer

unfoldable pub start : ChannelMirror → Answer → ℕ → Done
start m answer jitter = connect (record m { running = true; has_reticulum = true }) answer jitter

-- Whether a connect was kicked off, and the call.
unfoldable pub wake : ChannelMirror → Answer → ℕ → Bool × Done
wake m answer jitter =
    if m.running && is_wakeable m.state
    then (true, connect (record m { pending_timer = none }) answer jitter)
    else (false, ([], m, false))

abbrev pub torn_down : Option ℕ → List Output
torn_down none = []
torn_down (some link) = teardown_link link ∷ []

unfoldable pub stop : ChannelMirror → Done
stop m = (torn_down m.link, record m { running = false; pending_timer = none }, false)

abbrev pub request_on : Option ℕ → ℕ → List Output
request_on none cursor = []
request_on (some link) cursor = sync_request link cursor ∷ []

unfoldable pub sync_history : ChannelMirror → List Output
sync_history m = request_on m.link m.cursor

-- `self._link.set_packet_callback` raises where there is no link.
abbrev pub greeted : ChannelMirror → Option ℕ → Done
greeted m none = (attempted success ∷ [], m, true)
greeted m (some link) =
    (attempted success ∷ (if m.has_handshake then handshake ∷ [] else sync_history m), m, false)

unfoldable pub on_linked : ChannelMirror → Done
on_linked m = greeted (record m { attempt = 0; recall_none_attempts = 0; state = linked }) m.link

unfoldable pub on_closed : ChannelMirror → ℕ → Done
on_closed m jitter =
    schedule_retry (record m { authenticated = false; state = closed; link = none }) jitter

-- The timer fires: it is pending no longer, and runs `_reconnect`.
unfoldable pub reconnect : ChannelMirror → Answer → ℕ → Done
reconnect m answer jitter =
    let m' = record m { pending_timer = none } in
    if m.running && m.has_reticulum then connect m' answer jitter else ([], m', false)
