-- ===== src/Federation/Mirror/Tests.antt =====
-- Runs of a channel mirror.
use hokora.Base.{
  ℕ, ◌≤◌, ◌<◌, ◌≡◌, refl, true, false, Option, none, some, [], ◌∷◌, arith, In, ◌==◌, if◌then◌else◌,
}
use hokora.Bytes.{Bytes}
use hokora.Federation.EpochWire.{is_epoch_frame}
use hokora.Federation.EpochCrypto.{Primitives}
use hokora.Federation.Mirror.{
  ChannelMirror, idle, linked, waiting_for_path, link_made, attempted, success, sync_request,
  max_exponent, start, connect, wake, stop, on_linked, on_closed, schedule_retry, get_backoff_delay,
  sync_history, is_wakeable,
}
use hokora.Federation.Mirror.Retry.{get_backoff_delay_bounds, offline, retries_end}
use hokora.Federation.Mirror.Recovery.{
  is_pending, Life, made, started, link_up, link_down, Life-recoverable,
}
use hokora.Federation.Mirror.Responses.{Message, Response, history, request, handle_response}
use hokora.Federation.Mirror.Cursor.{
  handle_all, handle_all_monotone, IsGreatest, handle_response-history,
}

abbrev new_mirror : ChannelMirror
new_mirror = record {
  running = false;
  has_reticulum = false;
  state = idle;
  link = none;
  cursor = 5;
  pending_timer = none;
  attempt = 0;
  recall_none_attempts = 0;
  authenticated = false;
  has_handshake = false;
  has_response_callback = false;
  has_push_ack_callback = false;
  has_cursor_callback = true;
  epoch_manager = none;
}

get_backoff_delay_bounds_at_input : (3750 ≤ 37500) × (37500 ≤ 375000) × (6 ≤ 3 → 225000 ≤ 37500)
get_backoff_delay_bounds_at_input =
    get_backoff_delay_bounds 3 7500 37500 (omega arith) (unfold get_backoff_delay in refl)

retries_end_example :
    ((n : ℕ) → n < max_exponent → is_pending (offline n new_mirror).pending_timer ≡ true)
    × ((offline max_exponent new_mirror).pending_timer ≡ none)
    × ((offline max_exponent new_mirror).state ≡ waiting_for_path)
retries_end_example = retries_end new_mirror refl refl

abbrev up : ChannelMirror
up = (on_linked (start new_mirror (link_made 9) 0).1).1

-- The mirror starts, its link comes up and goes down.
abbrev down : ChannelMirror
down = (on_closed up 100).1

down-Life : Life down
unfolding start connect on_linked on_closed schedule_retry get_backoff_delay
down-Life =
    link_down 100 refl (link_up refl (started (link_made 9) 0 refl (made {m = new_mirror} refl)))

Life-recoverable_example : is_pending down.pending_timer ≡ true
Life-recoverable_example = Life-recoverable down-Life down_running down_wakeable
  where
    down_running : down.running ≡ true
    down_running = unfold start connect on_linked on_closed schedule_retry get_backoff_delay in refl

    down_wakeable : is_wakeable down.state ≡ true
    down_wakeable =
        unfold start connect on_linked on_closed schedule_retry get_backoff_delay in refl

-- With no callback for a handshake the history is asked for from the cursor.
linked_asks :
    (on_linked (start new_mirror (link_made 9) 0).1).0 ≡ attempted success ∷ sync_request 9 5 ∷ []
unfolding start connect on_linked sync_history
linked_asks = refl

woken : (wake down (link_made 10) 0).0 ≡ true
unfolding wake start connect on_linked on_closed schedule_retry get_backoff_delay
woken = refl

stopped : (stop down).1.pending_timer ≡ none
unfolding stop
stopped = refl

abbrev no_crypto : Primitives
no_crypto = record {
  public_key = λ _. [];
  exchange = λ _ _. none;
  hkdf = λ _ _. [];
  hmac = λ _ _. [];
  aead_encrypt = λ _ _ _ _. [];
  aead_decrypt = λ _ _ _ _. none;
}

abbrev message_at : ℕ → Message
message_at n = record { seq = n; body = 0 }

-- A first byte of 1 is a page of history, and anything else decodes to nothing.
abbrev decoded : Bytes → Option Response
decoded [] = none
decoded (b ∷ bs) = if b == 1 then some (history (message_at 8 ∷ message_at 6 ∷ []) true) else none

abbrev mirror_up : ChannelMirror
mirror_up = record new_mirror { running = true; state = linked; link = some 9 }

plain_frame : is_epoch_frame (1 ∷ []) ≡ false
unfolding is_epoch_frame
plain_frame = refl

handle_response-history_at_input :
    let (reactions, m') = handle_response no_crypto decoded mirror_up (1 ∷ []) [] [] 0 in
    IsGreatest 5 (message_at 8 ∷ message_at 6 ∷ []) m'.cursor
    × (true ≡ true → true ≡ true → mirror_up.link ≡ some 9 → In (request 9 m'.cursor) reactions)
handle_response-history_at_input =
    handle_response-history no_crypto decoded mirror_up (1 ∷ []) [] [] 0 9
      (message_at 8 ∷ message_at 6 ∷ []) true plain_frame refl

handle_all_monotone_at_input :
    5 ≤ (handle_all no_crypto decoded mirror_up ((1 ∷ []) ∷ (34 ∷ []) ∷ []) [] [] 0).cursor
handle_all_monotone_at_input =
    handle_all_monotone no_crypto decoded mirror_up ((1 ∷ []) ∷ (34 ∷ []) ∷ []) [] [] 0
