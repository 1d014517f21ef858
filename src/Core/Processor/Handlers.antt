-- ===== src/Core/Processor/Handlers.antt =====
-- src/hokora/core/message.py: the handlers of edits, deletions, pins and reactions, and the storing of
-- all other messages. The rows are the session's objects; an error leaves what was written before
-- it, and the caller's transaction takes it back.
use hokora.Base.{
  ℕ, Bool, false, not, Option, none, some, [], ◌∷◌, ◌++◌, leb, ◌==◌, length, if◌then◌else◌,
}
use hokora.Base.Keys.{number_key, bytes_key}
use hokora.Bytes.{Bytes}
use hokora.Text.{Text}
use hokora.Result.{Result, ok, err}
use hokora.Db.{Channel, Message, Tables}
use hokora.Db.Identities.{log}
use hokora.Db.Messages.{find_channel, find_message, change_message, deleted_message, pinned_message}
use hokora.Core.Sequencer.{SequenceManager, next_seq}
use hokora.Security.SealedInvariant.{Stored, seal_for_origin}
use hokora.Core.Processor.Envelope.{
  msg_system, max_edit_chain_length, MessageEnvelope, ProcessError, channel_not_found, no_target,
  target_not_found, wrong_channel, edit_chain_full, not_the_author, cannot_seal, duplicate_hash,
  MessageProcessor, State, compute_hash,
}
use hokora.Core.Processor.Checks.{is_sender}

-- `MessageRepo.insert`: the hash is the primary key.
abbrev pub insert_unless : Option Message → State → Message → Result ProcessError Message × State
insert_unless (some existing) s m = (err duplicate_hash, s)
insert_unless none s m =
    (ok m, record s { tables = record s.tables { messages = s.tables.messages ++ m ∷ [] } })

unfoldable pub insert_message : State → Message → Result ProcessError Message × State
insert_message s m = insert_unless (find_message m.msg_hash s.tables.messages) s m

-- A change of the row of a hash.
abbrev pub change_row : State → ℕ → (Message → Message) → State
change_row s target fields = record s {
  tables = record s.tables { messages = change_message target fields s.tables.messages };
}

abbrev pub in_channel : ℕ → Option Message → Result ProcessError Message
in_channel channel none = err target_not_found
in_channel channel (some target) =
    if target.channel_id == channel then ok target else err wrong_channel

unfoldable pub require_target_in_channel : Tables → Option ℕ → ℕ → Result ProcessError Message
require_target_in_channel t none channel = err no_target
require_target_in_channel t (some target) channel =
    in_channel channel (find_message target t.messages)

-- A row that holds the fields of an envelope, with the columns' defaults.
abbrev pub base_row : MessageProcessor → MessageEnvelope → ℕ → ℕ → Stored → Message
base_row p e hash now stored = record {
  msg_hash = hash;
  channel_id = e.channel_id;
  sender_hash = some e.sender_hash;
  seq = none;
  thread_seq = none;
  timestamp = e.timestamp;
  type = e.type;
  body = stored.body;
  media_path = none;
  reply_to = none;
  ttl = none;
  received_at = now;
  deleted = false;
  deleted_by = none;
  pinned = false;
  pinned_at = none;
  edit_chain = [];
  reactions = [];
  display_name = none;
  mentions = [];
  origin_node = p.node_identity;
  encrypted_body = stored.encrypted_body;
  encryption_nonce = stored.encryption_nonce;
  encryption_epoch = stored.encryption_epoch;
}

-- What an edit makes of the message that it changes.
abbrev pub edited_message : ℕ → Stored → Message → Message
edited_message hash stored row = record row {
  edit_chain = row.edit_chain ++ hash ∷ [];
  body = stored.body;
  encrypted_body = stored.encrypted_body;
  encryption_nonce = stored.encryption_nonce;
  encryption_epoch = stored.encryption_epoch;
}

abbrev pub extend_chain :
    Message → Stored → Result ProcessError Message × State → Result ProcessError Message × State
extend_chain original stored (err error, s) = (err error, s)
extend_chain original stored (ok edit, s) =
    if leb max_edit_chain_length (length original.edit_chain)
    then (err edit_chain_full, s)
    else (ok edit, change_row s original.msg_hash (edited_message edit.msg_hash stored))

abbrev pub store_edit :
    MessageProcessor
    → State
    → MessageEnvelope
    → Message
    → ℕ
    → Option Stored
    → Result ProcessError Message × State
store_edit p s e original now none = (err cannot_seal, s)
store_edit p s e original now (some stored) = extend_chain original stored (
    insert_message s
      (record (base_row p e (compute_hash p e) now stored) { reply_to = some original.msg_hash }))

abbrev pub seal_edit :
    MessageProcessor
    → State
    → MessageEnvelope
    → Message
    → ℕ
    → Bytes
    → Option Channel
    → Result ProcessError Message × State
seal_edit p s e original now iv none = (err channel_not_found, s)
seal_edit p s e original now iv (some channel) =
    store_edit p s e original now (seal_for_origin p.gcm p.sealed_manager channel iv e.body)

abbrev pub edit_target :
    MessageProcessor
    → State
    → MessageEnvelope
    → ℕ
    → Bytes
    → Result ProcessError Message
    → Result ProcessError Message × State
edit_target p s e now iv (err error) = (err error, s)
edit_target p s e now iv (ok original) =
    if is_sender original.sender_hash e.sender_hash
    then seal_edit p s e original now iv (find_channel e.channel_id s.tables.channels)
    else (err not_the_author, s)

unfoldable pub process_edit :
    MessageProcessor → State → MessageEnvelope → ℕ → Bytes → Result ProcessError Message × State
process_edit p s e now iv =
    edit_target p s e now iv (require_target_in_channel s.tables e.reply_to e.channel_id)

abbrev pub delete_target :
    State → MessageEnvelope → Result ProcessError Message → Result ProcessError Message × State
delete_target s e (err error) = (err error, s)
delete_target s e (ok original) =
    let s' = change_row s original.msg_hash (deleted_message e.sender_hash) in
    (
      ok (deleted_message e.sender_hash original),
      record s' {
        tables = log s'.tables e.sender_hash "message_delete" original.msg_hash (some e.channel_id);
      },
    )

unfoldable pub process_delete : State → MessageEnvelope → Result ProcessError Message × State
process_delete s e = delete_target s e (require_target_in_channel s.tables e.reply_to e.channel_id)

abbrev pub seal_pin :
    MessageProcessor
    → State
    → MessageEnvelope
    → ℕ
    → ℕ
    → Option Stored
    → Result ProcessError Message × State
seal_pin p s e now seq none = (err cannot_seal, s)
seal_pin p s e now seq (some stored) =
    insert_message s (record (base_row p e (p.pin_hash e.channel_id e.sender_hash now) now stored) {
      seq = some seq;
      timestamp = now;
      type = msg_system;
    })

-- `text` is the sentence of the system message.
abbrev pub number_pin :
    MessageProcessor
    → State
    → MessageEnvelope
    → Channel
    → ℕ
    → Bytes
    → Text
    → Option ℕ × SequenceManager × Tables
    → Result ProcessError Message × State
number_pin p s e channel now iv text (none, q, t) = (err channel_not_found, s)
number_pin p s e channel now iv text (some seq, q, t) =
    seal_pin p (record s { sequencer = q; tables = t }) e now seq
      (seal_for_origin p.gcm p.sealed_manager channel iv (some text))

abbrev pub pin_target :
    MessageProcessor
    → State
    → MessageEnvelope
    → Channel
    → ℕ
    → Bytes
    → (Bool → Text)
    → Result ProcessError Message
    → Result ProcessError Message × State
pin_target p s e channel now iv text (err error) = (err error, s)
pin_target p s e channel now iv text (ok original) =
    let pinned = not original.pinned in
    let s' = change_row s original.msg_hash (pinned_message pinned now) in
    number_pin p s' e channel now iv (text pinned) (next_seq s'.sequencer s'.tables e.channel_id)

unfoldable pub process_pin :
    MessageProcessor
    → State
    → MessageEnvelope
    → Channel
    → ℕ
    → Bytes
    → (Bool → Text)
    → Result ProcessError Message × State
process_pin p s e channel now iv text =
    pin_target p s e channel now iv text
      (require_target_in_channel s.tables e.reply_to e.channel_id)
