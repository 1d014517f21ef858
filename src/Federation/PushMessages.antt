-- ===== src/Federation/PushMessages.antt =====
-- src/hokora/protocol/handlers/federation.py, `handle_push_messages`: what a peer's push does to the
-- tables. A field of a pushed message that is empty or missing is `none`; the log is left out.
pub mod Steps
pub mod Vouched
pub mod Sound
use hokora.Base.{
  ℕ, Bool, true, false, not, ◌&&◌, Option, none, some, String, List, [], ◌∷◌, ◌++◌, leb, ◌==◌,
  if◌then◌else◌,
}
use hokora.Bytes.{Bytes}
use hokora.Text.{Text}
use hokora.Result.{Result, ok, err}
use hokora.Dict.{Dict}
use hokora.Db.{Channel, Message, Tables}
use hokora.Db.Messages.{find_channel, find_message}
use hokora.Core.Sequencer.{SequenceManager, next_seq}
use hokora.Core.Processor.Envelope.{msg_text, msg_edit}
use hokora.Core.Processor.Ingest.{is_too_large, shortened}
use hokora.Security.Ban.{is_blocked, record_ban_rejection}
use hokora.Security.Sealed.{SealedChannelError}
use hokora.Security.SealedInvariant.{Stored, plain, validate_mirror_payload}
use hokora.Federation.Auth.{Identities, Rejection, verify_sender_binding}

-- The dict of a message, as `encode_message_for_sync` and the pusher make it.
pub record PushedMessage : Type 0 where
  pub msg_hash : ℕ
  pub sender_hash : Option ℕ
  pub seq : ℕ
  pub timestamp : ℕ
  pub type : ℕ
  pub body : Option Text
  pub display_name : Option Text
  pub encrypted_body : Option Bytes
  pub encryption_nonce : Option Bytes
  pub encryption_epoch : Option ℕ
  pub lxmf_signed_part : Option Bytes
  pub lxmf_signature : Option Bytes
  pub sender_rns_public_key : Option Bytes
  pub origin_node : Option ℕ

pub record Peer : Type 0 where
  pub identity_hash : ℕ
  pub federation_trusted : Bool

-- `published` are the rows that were handed to the live subscriptions.
pub record PushState : Type 0 where
  pub tables : Tables
  pub sequencer : SequenceManager
  pub binding_rejections : Dict String ℕ
  pub ban_rejections : Dict String ℕ
  pub published : List Message

pub data PushError : Type 0 where
  no_channel missing_node not_trusted channel_gone : PushError

pub record PushAck : Type 0 where
  pub received : List ℕ
  pub rejected : List ℕ

-- The row of a message that came from another node.
abbrev pub pushed_row : PushedMessage → ℕ → ℕ → ℕ → Stored → Option ℕ → Message
pushed_row m channel seq now stored origin = record {
  msg_hash = m.msg_hash;
  channel_id = channel;
  sender_hash = m.sender_hash;
  seq = some seq;
  thread_seq = none;
  timestamp = m.timestamp;
  type = m.type;
  body = stored.body;
  media_path = none;
  reply_to = none;
  ttl = none;
  received_at = now;
  deleted = false;
  deleted_by = none;
  pinned = false;
  pinned_at = none;
  edit_chain = [];
  reactions = [];
  display_name = shortened m.display_name;
  mentions = [];
  origin_node = origin;
  encrypted_body = stored.encrypted_body;
  encryption_nonce = stored.encryption_nonce;
  encryption_epoch = stored.encryption_epoch;
}

-- `session.add(message)` under the number that was assigned, and the push to the subscribers.
abbrev pub add_row :
    PushState
    → PushedMessage
    → ℕ
    → ℕ
    → Stored
    → Option ℕ
    → Option ℕ × SequenceManager × Tables
    → Option ℕ × PushState
add_row s m channel now stored origin (none, sequencer, t) =
    (none, record s { tables = t; sequencer = sequencer })
add_row s m channel now stored origin (some seq, sequencer, t) =
    let row = pushed_row m channel seq now stored origin in
    (
      some seq,
      record s {
        tables = record t { messages = t.messages ++ row ∷ [] };
        sequencer = sequencer;
        published = s.published ++ row ∷ [];
      },
    )

-- The number under which the row is stored; `none` is NoResultFound of the sequencer.
unfoldable pub store_pushed :
    PushState → PushedMessage → ℕ → ℕ → Stored → Option ℕ → Option ℕ × PushState
store_pushed s m channel now stored origin =
    add_row s m channel now stored origin (next_seq s.sequencer s.tables channel)

-- A channel that is not there is not sealed.
abbrev pub payload_for :
    Option Channel
    → Option Text
    → Option Bytes
    → Option Bytes
    → Option ℕ
    → Result SealedChannelError Stored
payload_for none body encrypted iv epoch = ok (plain body)
payload_for (some channel) body encrypted iv epoch =
    validate_mirror_payload channel body encrypted iv epoch

abbrev pub is_valid_type : ℕ → Bool
is_valid_type type = leb msg_text type && leb type msg_edit

-- What is decided of a message before it is stored.
pub data Verdict : Type 0 where
  known banned refused : Verdict
  store : Stored → Verdict

abbrev pub verdict_of_payload : Result SealedChannelError Stored → Verdict
verdict_of_payload (err e) = refused
verdict_of_payload (ok stored) = store stored

abbrev pub check_content : Option Channel → PushedMessage → Option Rejection → Verdict
check_content channel m (some why) = refused
check_content channel m none =
    if not (is_valid_type m.type)
    then refused
    else if is_too_large m.body
    then refused
    else verdict_of_payload
        (payload_for channel m.body m.encrypted_body m.encryption_nonce m.encryption_epoch)

abbrev pub check_binding :
    Option Channel → PushedMessage → Option Rejection × Dict String ℕ → Verdict × Dict String ℕ
check_binding channel m (why, counts) = (check_content channel m why, counts)

abbrev pub is_known : Option Message → Bool
is_known none = false
is_known (some row) = true

unfoldable pub verdict :
    Identities → Bool → Option Channel → PushState → PushedMessage → Verdict × Dict String ℕ
verdict k require_signed channel s m =
    if is_known (find_message m.msg_hash s.tables.messages)
    then (known, s.binding_rejections)
    else if is_blocked s.tables m.sender_hash
    then (banned, s.binding_rejections)
    else check_binding channel m (
        verify_sender_binding k s.binding_rejections m.sender_hash m.sender_rns_public_key
          m.lxmf_signed_part m.lxmf_signature require_signed)

abbrev pub note_stored : PushAck → Option ℕ × PushState → Result PushError PushAck × PushState
note_stored ack (none, s) = (err channel_gone, s)
note_stored ack (some seq, s) = (ok (record ack { received = ack.received ++ seq ∷ [] }), s)

abbrev pub act_on :
    PushState
    → PushAck
    → PushedMessage
    → ℕ
    → ℕ
    → ℕ
    → Verdict × Dict String ℕ
    → Result PushError PushAck × PushState
act_on s ack m channel node now (known, counts) =
    (ok (record ack { received = ack.received ++ m.seq ∷ [] }), s)
act_on s ack m channel node now (banned, counts) = (
  ok (record ack { rejected = ack.rejected ++ m.msg_hash ∷ [] }),
  record s { ban_rejections = record_ban_rejection s.ban_rejections "federation_push" },
)
act_on s ack m channel node now (refused, counts) = (
  ok (record ack { rejected = ack.rejected ++ m.msg_hash ∷ [] }),
  record s { binding_rejections = counts },
)
act_on s ack m channel node now (store stored, counts) =
    note_stored ack
      (store_pushed (record s { binding_rejections = counts }) m channel now stored (some node))

-- The loop over the messages of a push, with the channel as it was before it.
unfoldable pub receive_all :
    Identities
    → Bool
    → ℕ
    → Option Channel
    → ℕ
    → ℕ
    → List PushedMessage
    → Result PushError PushAck × PushState
    → Result PushError PushAck × PushState
receive_all k require_signed id channel node now messages (err e, s) = (err e, s)
receive_all k require_signed id channel node now [] (ok ack, s) = (ok ack, s)
receive_all k require_signed id channel node now (m ∷ messages) (ok ack, s) =
    receive_all k require_signed id channel node now messages
      (act_on s ack m id node now (verdict k require_signed channel s m))

unfoldable pub is_trusted : ℕ → List Peer → Bool
is_trusted node [] = false
is_trusted node (peer ∷ peers) =
    let rest = is_trusted node peers in
    if peer.identity_hash == node then peer.federation_trusted else rest

abbrev pub receive_from :
    Identities
    → Bool
    → List Peer
    → ℕ
    → List PushedMessage
    → Option ℕ
    → ℕ
    → PushState
    → Result PushError PushAck × PushState
receive_from k require_signed peers channel messages none now s = (err missing_node, s)
receive_from k require_signed peers channel messages (some node) now s =
    if not (is_trusted node peers)
    then (err not_trusted, s)
    else receive_all k require_signed channel (find_channel channel s.tables.channels) node now
        messages (ok (record { received = []; rejected = [] }), s)

unfoldable pub handle_push_messages :
    Identities
    → Bool
    → List Peer
    → Option ℕ
    → List PushedMessage
    → Option ℕ
    → ℕ
    → PushState
    → Result PushError PushAck × PushState
handle_push_messages k require_signed peers none messages from now s = (err no_channel, s)
handle_push_messages k require_signed peers (some channel) messages from now s =
    receive_from k require_signed peers channel messages from now s
