-- ===== src/Federation/Mirror/Cursor.antt =====
-- The cursor of a mirror is the greatest sequence number that it has seen.
use mathlib.Core.Path.{subst}
use hokora.Base.{
  ℕ, ◌≤◌, ◌≡◌, ◌⊎◌, refl, sym, ◌∙◌, inl, inr, Bool, true, false, not, ◌&&◌, Option, none, some,
  List, [], ◌∷◌, arith, ltb, ◌==◌, if◌then◌else◌, In, here, there, In-append_right,
}
use hokora.Bytes.{Bytes}
use hokora.Result.{Result, ok, err}
use hokora.Federation.EpochWire.{is_epoch_frame}
use hokora.Federation.EpochCrypto.{Primitives}
use hokora.Federation.EpochManager.{EpochManager, EpochError, handle_epoch_rotate}
use hokora.Federation.EpochManager.Sealing.{decrypt}
use hokora.Federation.Mirror.{ChannelMirror}
use hokora.Federation.Mirror.Responses.{
  Message, Response, history, federation_handshake, push_ack, request, cursor_moved, advance,
  ingest, ingest_all, when, has_any, dispatch, opened, rotated, open_data, take_rotation,
  handle_response,
}

-- No message has a greater sequence number.
abbrev pub NoneAbove : ℕ → List Message → Type 0
NoneAbove cursor [] = Unit
NoneAbove cursor (msg ∷ messages) = (msg.seq ≤ cursor) × NoneAbove cursor messages

abbrev pub seqs : List Message → List ℕ
seqs [] = []
seqs (msg ∷ messages) = msg.seq ∷ seqs messages

-- The cursor is the old one or the sequence number of a message, and nothing is above it.
abbrev pub IsGreatest : ℕ → List Message → ℕ → Type 0
IsGreatest old messages cursor =
    (old ≤ cursor) × NoneAbove cursor messages × ((cursor ≡ old) ⊎ In cursor (seqs messages))

abbrev stepped : ℕ → Message → ℕ
stepped cursor msg = if not (msg.seq == 0) && ltb cursor msg.seq then msg.seq else cursor

stepped_lem :
    (cursor : ℕ) (msg : Message)
    → (cursor ≤ stepped cursor msg)
      × (msg.seq ≤ stepped cursor msg)
      × ((stepped cursor msg ≡ cursor) ⊎ (stepped cursor msg ≡ msg.seq))
stepped_lem cursor msg = (ground arith, ground arith, ground arith)

found_more :
    {c cursor next : ℕ} (msg : Message) (messages : List Message)
    → (next ≡ cursor) ⊎ (next ≡ msg.seq)
    → (c ≡ next) ⊎ In c (seqs messages)
    → (c ≡ cursor) ⊎ In c (seqs (msg ∷ messages))
found_more msg messages (inl old) (inl e) = inl (e ∙ old)
found_more msg messages (inr new) (inl e) =
    inr (subst (λ k. In k (seqs (msg ∷ messages))) (sym (e ∙ new)) here)
found_more msg messages next (inr i) = inr (there i)

advance-IsGreatest :
    (cursor : ℕ) (messages : List Message) → IsGreatest cursor messages (advance cursor messages)
unfolding advance
advance-IsGreatest cursor [] = (omega arith, tt, inl refl)
advance-IsGreatest cursor (msg ∷ messages) =
    let (le, above, found) = advance-IsGreatest (stepped cursor msg) messages in
    let (old, new, which) = stepped_lem cursor msg in
    (omega (arith, le, old), (omega (arith, le, new), above), found_more msg messages which found)

-- Every response that the mirror can receive, encrypted or not.
dispatch_monotone : (m : ChannelMirror) (r : Option Response) → m.cursor ≤ (dispatch m r).1.cursor
unfolding ingest
dispatch_monotone m none = omega arith
dispatch_monotone m (some (federation_handshake d)) = omega arith
dispatch_monotone m (some (push_ack d)) = omega arith
dispatch_monotone m (some (history messages more)) = (advance-IsGreatest m.cursor messages).0

opened_monotone :
    (m : ChannelMirror) (decode : Bytes → Option Response)
    (r : Result EpochError Bytes × EpochManager)
    → m.cursor ≤ (opened m decode r).1.cursor
opened_monotone m decode (err e, epochs) = omega arith
opened_monotone m decode (ok plain, epochs) =
    dispatch_monotone (record m { epoch_manager = some epochs }) (decode plain)

rotated_monotone :
    (m : ChannelMirror) (r : Result EpochError Bytes × EpochManager)
    → m.cursor ≤ (rotated m r).1.cursor
rotated_monotone m (err e, epochs) = omega arith
rotated_monotone m (ok ack, epochs) = omega arith

module _ (c : Primitives) (decode : Bytes → Option Response) (m : ChannelMirror)
    (bytes private prefix : Bytes) (now : ℕ) where
  open_data_monotone :
      (e : Option EpochManager) → m.cursor ≤ (open_data c decode m e bytes).1.cursor
  unfolding open_data
  open_data_monotone none = dispatch_monotone m (decode bytes)
  open_data_monotone (some epochs) = opened_monotone m decode (decrypt c epochs bytes)

  take_rotation_monotone :
      (e : Option EpochManager) → m.cursor ≤ (take_rotation c m e bytes private prefix now).1.cursor
  unfolding take_rotation
  take_rotation_monotone none = omega arith
  take_rotation_monotone (some epochs) =
      rotated_monotone m (handle_epoch_rotate c epochs bytes private prefix now)

  step_monotone : m.cursor ≤ (handle_response c decode m bytes private prefix now).1.cursor
  unfolding handle_response
  step_monotone = ground (
    arith,
    dispatch_monotone m (decode bytes),
    open_data_monotone m.epoch_manager,
    take_rotation_monotone m.epoch_manager,
  )

-- A run of incoming packets.
abbrev pub handle_all :
    Primitives
    → (Bytes → Option Response)
    → ChannelMirror
    → List Bytes
    → Bytes
    → Bytes
    → ℕ
    → ChannelMirror
handle_all c decode m [] private prefix now = m
handle_all c decode m (bytes ∷ packets) private prefix now =
    handle_all c decode (handle_response c decode m bytes private prefix now).1 packets private
      prefix now

-- Whatever packets arrive, of whatever kind and however encoded, the cursor never goes back.
pub handle_all_monotone :
    (c : Primitives) (decode : Bytes → Option Response) (m : ChannelMirror) (packets : List Bytes)
    (private prefix : Bytes) (now : ℕ)
    → m.cursor ≤ (handle_all c decode m packets private prefix now).cursor
handle_all_monotone c decode m [] private prefix now = omega arith
handle_all_monotone c decode m (bytes ∷ packets) private prefix now = omega (
  arith,
  step_monotone c decode m bytes private prefix now,
  handle_all_monotone c decode (handle_response c decode m bytes private prefix now).1 packets
      private prefix now,
)

-- A history response moves the cursor to the greatest of the old one and the sequence numbers in
-- it, and if there is more to come, the mirror runs and has a link, the next request asks for what
-- follows that cursor.
pub handle_response-history :
    (c : Primitives) (decode : Bytes → Option Response) (m : ChannelMirror)
    (bytes private prefix : Bytes) (now link : ℕ) (messages : List Message) (has_more : Bool)
    → is_epoch_frame bytes ≡ false
    → decode bytes ≡ some (history messages has_more)
    → let (reactions, m') = handle_response c decode m bytes private prefix now in
      IsGreatest m.cursor messages m'.cursor
      × (has_more ≡ true
          → m.running ≡ true
          → m.link ≡ some link
          → In (request link m'.cursor) reactions)
unfolding handle_response ingest
handle_response-history c decode m bytes private prefix now link messages has_more plain d =
    rw (plain, d)
      (
        advance-IsGreatest m.cursor messages,
        λ more running known.
            rw (more, running, known)
              (In-append_right (ingest_all messages) (
                In-append_right
                  (when (has_any messages && m.has_cursor_callback)
                    (cursor_moved (advance m.cursor messages)))
                  here)),
      )
