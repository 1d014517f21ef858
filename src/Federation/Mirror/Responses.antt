-- ===== src/Federation/Mirror/Responses.antt =====
-- src/hokora/federation/mirror.py, `handle_response`: what arrives on the link. Decoding a response is a
-- parameter, msgpack behind `decode_sync_response`; a message is its sequence number and an opaque
-- body. An exception is logged and swallowed, which keeps what was changed before it.
use hokora.Base.{
  ℕ, Bool, true, false, not, ◌&&◌, Option, none, some, List, [], ◌∷◌, ◌++◌, ltb, ◌==◌,
  if◌then◌else◌,
}
use hokora.Bytes.{Bytes}
use hokora.Result.{Result, ok, err}
use hokora.Federation.EpochWire.{is_epoch_frame, epoch_data, epoch_rotate_ack}
use hokora.Federation.EpochCrypto.{Primitives}
use hokora.Federation.EpochManager.{EpochManager, EpochError, handle_epoch_rotate}
use hokora.Federation.EpochManager.Sealing.{decrypt}
use hokora.Federation.Mirror.{ChannelMirror}

-- `msg_data.get("seq", 0)` and the rest.
pub record Message : Type 0 where
  pub seq : ℕ
  pub body : ℕ

-- A decoded response, by its `action`.
pub data Response : Type 0 where
  federation_handshake push_ack : ℕ → Response
  history : List Message → Bool → Response

pub data Reaction : Type 0 where
  -- the handshake, push-acknowledgement, ingest and cursor callbacks
  handshake_response acknowledged : ℕ → Reaction
  rotate_acknowledged : Bytes → Reaction
  ingested : Message → Reaction
  cursor_moved : ℕ → Reaction
  -- the acknowledgement of a rotation, and the next history request
  reply : ℕ → Bytes → Reaction
  request : ℕ → ℕ → Reaction

-- `if seq and seq > self._cursor: self._cursor = seq`, for each message
unfoldable pub advance : ℕ → List Message → ℕ
advance cursor [] = cursor
advance cursor (msg ∷ messages) =
    advance (if not (msg.seq == 0) && ltb cursor msg.seq then msg.seq else cursor) messages

abbrev pub ingest_all : List Message → List Reaction
ingest_all [] = []
ingest_all (msg ∷ messages) = ingested msg ∷ ingest_all messages

abbrev pub when : Bool → Reaction → List Reaction
when true r = r ∷ []
when false r = []

abbrev pub has_any : List Message → Bool
has_any [] = false
has_any (msg ∷ messages) = true

abbrev pub next_request : Bool → Option ℕ → ℕ → List Reaction
next_request false link cursor = []
next_request true none cursor = []
next_request true (some link) cursor = request link cursor ∷ []

unfoldable pub ingest : ChannelMirror → List Message → Bool → List Reaction × ChannelMirror
ingest m messages has_more =
    let cursor = advance m.cursor messages in
    (
      ingest_all messages
          ++ (when (has_any messages && m.has_cursor_callback) (cursor_moved cursor)
              ++ next_request (has_more && m.running) m.link cursor),
      record m { cursor = cursor },
    )

abbrev pub dispatch : ChannelMirror → Option Response → List Reaction × ChannelMirror
dispatch m none = ([], m)
dispatch m (some (federation_handshake data_id)) =
    (when m.has_response_callback (handshake_response data_id), m)
dispatch m (some (push_ack data_id)) = (when m.has_push_ack_callback (acknowledged data_id), m)
dispatch m (some (history messages has_more)) = ingest m messages has_more

abbrev pub head_of : Bytes → ℕ
head_of [] = 0
head_of (b ∷ bs) = b

abbrev pub opened :
    ChannelMirror
    → (Bytes → Option Response)
    → Result EpochError Bytes × EpochManager
    → List Reaction × ChannelMirror
opened m decode (err e, epochs) = ([], record m { epoch_manager = some epochs })
opened m decode (ok plain, epochs) =
    dispatch (record m { epoch_manager = some epochs }) (decode plain)

abbrev pub reply_on : Option ℕ → Bytes → List Reaction
reply_on none ack = []
reply_on (some link) ack = reply link ack ∷ []

abbrev pub rotated :
    ChannelMirror → Result EpochError Bytes × EpochManager → List Reaction × ChannelMirror
rotated m (err e, epochs) = ([], record m { epoch_manager = some epochs })
rotated m (ok ack, epochs) = (reply_on m.link ack, record m { epoch_manager = some epochs })

-- A data frame needs the epoch manager; without it the frame is decoded as it is.
unfoldable pub open_data :
    Primitives
    → (Bytes → Option Response)
    → ChannelMirror
    → Option EpochManager
    → Bytes
    → List Reaction × ChannelMirror
open_data c decode m none bytes = dispatch m (decode bytes)
open_data c decode m (some epochs) bytes = opened m decode (decrypt c epochs bytes)

unfoldable pub take_rotation :
    Primitives
    → ChannelMirror
    → Option EpochManager
    → Bytes
    → Bytes
    → Bytes
    → ℕ
    → List Reaction × ChannelMirror
take_rotation c m none bytes private prefix now = ([], m)
take_rotation c m (some epochs) bytes private prefix now =
    rotated m (handle_epoch_rotate c epochs bytes private prefix now)

-- `private`, `prefix` and `now` are what a rotation draws.
unfoldable pub handle_response :
    Primitives
    → (Bytes → Option Response)
    → ChannelMirror
    → Bytes
    → Bytes
    → Bytes
    → ℕ
    → List Reaction × ChannelMirror
handle_response c decode m bytes private prefix now =
    if not (is_epoch_frame bytes)
    then dispatch m (decode bytes)
    else if head_of bytes == epoch_data
    then open_data c decode m m.epoch_manager bytes
    else if not m.has_response_callback
    then ([], m)
    else if head_of bytes == epoch_rotate_ack
    then (rotate_acknowledged bytes ∷ [], m)
    else take_rotation c m m.epoch_manager bytes private prefix now
