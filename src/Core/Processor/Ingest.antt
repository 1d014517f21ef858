-- ===== src/Core/Processor/Ingest.antt =====
-- src/hokora/core/message.py: `ingest`. The time, the random nonce of a seal and the sentence of a
-- pin's system message are arguments.
use hokora.Base.{
  ℕ, ◌+◌, Bool, false, Option, none, some, List, [], ◌∷◌, ◌++◌, ltb, ◌==◌, length, take,
  if◌then◌else◌,
}
use hokora.Bytes.{Bytes}
use hokora.Text.{Text, utf8}
use hokora.Result.{Result, ok, err}
use hokora.Db.{Channel, Identity, Message, Thread, Tables}
use hokora.Db.Identities.{upsert}
use hokora.Db.Messages.{find_channel, find_message}
use hokora.Core.Sequencer.{SequenceManager, next_seq, next_thread_seq, find_thread, change_thread}
use hokora.Security.SealedInvariant.{Stored, seal_for_origin}
use hokora.Core.Processor.Envelope.{
  msg_reaction, msg_thread_reply, msg_delete, msg_pin, msg_edit, max_message_body_size,
  max_display_name_length, MessageEnvelope, ProcessError, channel_not_found, body_too_large,
  cannot_seal, MessageProcessor, State, compute_hash,
}
use hokora.Core.Processor.Checks.{check_permissions}
use hokora.Core.Processor.Handlers.{
  insert_message, base_row, process_edit, process_delete, process_pin,
}
use hokora.Core.Processor.Reacting.{has_reacted, process_reaction}

abbrev pub joined : ℕ → List ℕ → List ℕ
joined who participants =
    if has_reacted who participants then participants else participants ++ who ∷ []

abbrev pub replied_thread : ℕ → ℕ → Thread → Thread
replied_thread who now row = record row {
  reply_count = row.reply_count + 1;
  last_activity = now;
  participant_hashes = joined who row.participant_hashes;
}

abbrev pub thread_after_reply : Tables → ℕ → ℕ → ℕ → ℕ → Option Thread → Tables
thread_after_reply t root channel who now (some row) = record t {
  threads = change_thread root (replied_thread who now) t.threads;
}
thread_after_reply t root channel who now none = record t {
  threads =
      t.threads
      ++ (record {
        root_msg_hash = root;
        channel_id = channel;
        reply_count = 1;
        latest_thread_seq = 0;
        last_activity = now;
        participant_hashes = who ∷ [];
      })
        ∷ [];
}

unfoldable pub update_thread_metadata : Tables → ℕ → ℕ → ℕ → ℕ → Tables
update_thread_metadata t root channel who now =
    thread_after_reply t root channel who now (find_thread root t.threads)

-- The place of a message: its number in the channel or in its thread.
pub record Place : Type 0 where
  pub seq : Option ℕ
  pub thread_seq : Option ℕ

abbrev pub place_reply :
    State → MessageEnvelope → ℕ → ℕ → ℕ × SequenceManager × Tables → Option Place × State
place_reply s e root now (n, q, t) = (
  some (record { seq = none; thread_seq = some n }),
  record s { sequencer = q; tables = update_thread_metadata t root e.channel_id e.sender_hash now },
)

abbrev pub place_main : State → Option ℕ × SequenceManager × Tables → Option Place × State
place_main s (none, q, t) = (none, s)
place_main s (some n, q, t) =
    (some (record { seq = some n; thread_seq = none }), record s { sequencer = q; tables = t })

abbrev pub place_for : State → MessageEnvelope → ℕ → Option ℕ → Option Place × State
place_for s e now none = place_main s (next_seq s.sequencer s.tables e.channel_id)
place_for s e now (some root) =
    if e.type == msg_thread_reply
    then place_reply s e root now (next_thread_seq s.sequencer s.tables root e.channel_id now)
    else place_main s (next_seq s.sequencer s.tables e.channel_id)

unfoldable pub assign_place : State → MessageEnvelope → ℕ → Option Place × State
unfolding update_thread_metadata
assign_place s e now = place_for s e now e.reply_to

abbrev pub set_public_key : ℕ → Identity → Identity
set_public_key key row = record row { public_key = some key }

abbrev pub keep_sender_key : State → ℕ → ℕ → Option ℕ → State
keep_sender_key s sender now none = s
keep_sender_key s sender now (some key) = record s {
  tables = upsert s.tables sender (set_public_key key) now;
}

abbrev pub stored_row : MessageProcessor → MessageEnvelope → ℕ → ℕ → Place → Stored → Message
stored_row p e hash now place stored = record (base_row p e hash now stored) {
  seq = place.seq;
  thread_seq = place.thread_seq;
  media_path = e.media_path;
  reply_to = e.reply_to;
  ttl = e.ttl;
  display_name = e.display_name;
  mentions = e.mentions;
  reactions = e.reactions;
}

abbrev pub finish :
    MessageEnvelope → ℕ → Result ProcessError Message × State → Result ProcessError Message × State
finish e now (err error, s) = (err error, s)
finish e now (ok m, s) = (ok m, keep_sender_key s e.sender_hash now e.sender_public_key)

abbrev pub store_sealed :
    MessageProcessor
    → MessageEnvelope
    → ℕ
    → Place
    → State
    → Option Stored
    → Result ProcessError Message × State
store_sealed p e now place s none = (err cannot_seal, s)
store_sealed p e now place s (some stored) =
    finish e now (insert_message s (stored_row p e (compute_hash p e) now place stored))

abbrev pub store_placed :
    MessageProcessor
    → MessageEnvelope
    → Channel
    → ℕ
    → Bytes
    → Option Place × State
    → Result ProcessError Message × State
store_placed p e channel now iv (none, s) = (err channel_not_found, s)
store_placed p e channel now iv (some place, s) =
    store_sealed p e now place s (seal_for_origin p.gcm p.sealed_manager channel iv e.body)

abbrev pub store_unless :
    MessageProcessor
    → State
    → MessageEnvelope
    → Channel
    → ℕ
    → Bytes
    → Option Message
    → Result ProcessError Message × State
store_unless p s e channel now iv (some existing) = (ok existing, s)
store_unless p s e channel now iv none = store_placed p e channel now iv (assign_place s e now)

-- The end of `ingest`, for every type without a handler of its own.
unfoldable pub store_message :
    MessageProcessor
    → State
    → MessageEnvelope
    → Channel
    → ℕ
    → Bytes
    → Result ProcessError Message × State
store_message p s e channel now iv =
    store_unless p s e channel now iv (find_message (compute_hash p e) s.tables.messages)

unfoldable pub route :
    MessageProcessor
    → State
    → MessageEnvelope
    → Channel
    → ℕ
    → Bytes
    → (Bool → Text)
    → Result ProcessError Message × State
route p s e channel now iv text =
    if e.type == msg_edit
    then process_edit p s e now iv
    else if e.type == msg_delete
    then process_delete s e
    else if e.type == msg_pin
    then process_pin p s e channel now iv text
    else if e.type == msg_reaction
    then process_reaction s e
    else store_message p s e channel now iv

abbrev pub route_checked :
    MessageProcessor
    → Channel
    → ℕ
    → Bytes
    → (Bool → Text)
    → Result ProcessError MessageEnvelope × State
    → Result ProcessError Message × State
route_checked p channel now iv text (err error, s) = (err error, s)
route_checked p channel now iv text (ok e, s) = route p s e channel now iv text

abbrev pub is_too_large : Option Text → Bool
is_too_large none = false
is_too_large (some body) = ltb max_message_body_size (length (utf8 body))

abbrev pub shortened : Option Text → Option Text
shortened none = none
shortened (some name) = some (take max_display_name_length name)

abbrev pub ingest_into :
    MessageProcessor
    → State
    → MessageEnvelope
    → ℕ
    → Bytes
    → (Bool → Text)
    → Option Channel
    → Result ProcessError Message × State
ingest_into p s e now iv text none = (err channel_not_found, s)
ingest_into p s e now iv text (some channel) =
    if is_too_large e.body
    then (err body_too_large, s)
    else route_checked p channel now iv text
        (check_permissions p s (record e { display_name = shortened e.display_name }) channel now)

unfoldable pub ingest :
    MessageProcessor
    → State
    → MessageEnvelope
    → ℕ
    → Bytes
    → (Bool → Text)
    → Result ProcessError Message × State
ingest p s e now iv text =
    ingest_into p s e now iv text (find_channel e.channel_id s.tables.channels)
