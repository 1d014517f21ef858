-- ===== src/Federation/PushMessages/Steps.antt =====
-- src/hokora/protocol/handlers/federation.py: what each message of a push does to the tables.
use hokora.Base.{
  ℕ, ◌+◌, ◌≡◌, refl, Bool, Option, none, some, String, List, [], ◌∷◌, ◌++◌, inl, inr, Bool-cases,
  Option-cases,
}
use hokora.Result.{Result, ok, err}
use hokora.Dict.{Dict}
use hokora.Db.{Channel, Tables}
use hokora.Db.Messages.{find_channel, find_message, raise_seq}
use hokora.Core.Sequencer.{next_seq}
use hokora.Core.Processor.Ingest.{is_too_large}
use hokora.Security.Ban.{is_blocked}
use hokora.Security.Sealed.{SealedChannelError}
use hokora.Security.SealedInvariant.{Stored}
use hokora.Federation.Auth.{Identities, Rejection, reject_reason, verify_sender_binding}
use hokora.Federation.PushMessages.{
  PushedMessage, Peer, PushState, PushError, PushAck, pushed_row, store_pushed, payload_for,
  is_valid_type, verdict_of_payload, check_content, verdict, act_on, receive_all, is_trusted,
  handle_push_messages,
}

-- The reason that the binding check has to reject a message.
abbrev pub reason : Identities → Bool → PushedMessage → Option Rejection
reason k require_signed m =
    reject_reason k require_signed m.sender_hash m.sender_rns_public_key m.lxmf_signed_part
      m.lxmf_signature

abbrev pub Each : (PushedMessage → Type 0) → List PushedMessage → Type 0
Each P [] = Unit
Each P (m ∷ messages) = P m × Each P messages

-- `P` is what is known of the messages of the push.
module _ (P : PushedMessage → Type 0) (k : Identities) (require_signed : Bool) (channel : ℕ)
    (found : Option Channel) (node now : ℕ) where
  -- A message changes nothing or is stored under the channel's next number.
  pub data Step : Tables → Tables → Type 0 where
    same : {t : Tables} → Step t t
    adds :
        {t : Tables} (m : PushedMessage) (row : Channel) (stored : Stored)
        → P m
        → find_channel channel t.channels ≡ some row
        → find_message m.msg_hash t.messages ≡ none
        → reason k require_signed m ≡ none
        → payload_for found m.body m.encrypted_body m.encryption_nonce m.encryption_epoch
          ≡ ok stored
        → Step t (record t {
          channels = raise_seq channel t.channels;
          messages =
              t.messages ++ pushed_row m channel (row.latest_seq + 1) now stored (some node) ∷ [];
        })

  pub data Steps : Tables → Tables → Type 0 where
    nothing : {t : Tables} → Steps t t
    also : {t u v : Tables} → Steps t u → Step u v → Steps t v

  module _ (s : PushState) (ack : PushAck) (m : PushedMessage) (given : P m) where
    act_on-stored :
        (counts : Dict String ℕ) (stored : Stored)
        → find_message m.msg_hash s.tables.messages ≡ none
        → reason k require_signed m ≡ none
        → payload_for found m.body m.encrypted_body m.encryption_nonce m.encryption_epoch
          ≡ ok stored
        → Step s.tables
            (act_on s ack m channel node now (verdict_of_payload (ok stored), counts)).1.tables
    unfolding store_pushed next_seq
    act_on-stored counts stored f b h =
        elim (Option-cases (find_channel channel s.tables.channels)) [
          | inl n ↦ rw n same
          | inr (row, c) ↦ rw c (adds m row stored given c f b h)
        ]

    act_on-payload :
        (counts : Dict String ℕ) (r : Result SealedChannelError Stored)
        → find_message m.msg_hash s.tables.messages ≡ none
        → reason k require_signed m ≡ none
        → payload_for found m.body m.encrypted_body m.encryption_nonce m.encryption_epoch ≡ r
        → Step s.tables (act_on s ack m channel node now (verdict_of_payload r, counts)).1.tables
    act_on-payload counts (err e) f b h = same
    act_on-payload counts (ok stored) f b h = act_on-stored counts stored f b h

    act_on-content :
        (counts : Dict String ℕ)
        → find_message m.msg_hash s.tables.messages ≡ none
        → reason k require_signed m ≡ none
        → Step s.tables
            (act_on s ack m channel node now (check_content found m none, counts)).1.tables
    act_on-content counts f b = elim (Bool-cases (is_valid_type m.type)) [
      | inr bad ↦ rw bad same
      | inl good ↦ rw good (elim (Bool-cases (is_too_large m.body)) [
        | inl large ↦ rw large same
        | inr fits ↦ rw fits (act_on-payload counts _ f b refl)
      ])
    ]

    act_on-Step :
        Step s.tables
          (act_on s ack m channel node now (verdict k require_signed found s m)).1.tables
    unfolding verdict verify_sender_binding
    act_on-Step = elim (Option-cases (find_message m.msg_hash s.tables.messages)) [
      | inr (row, f) ↦ rw f same
      | inl f ↦ rw f (elim (Bool-cases (is_blocked s.tables m.sender_hash)) [
        | inl blocked ↦ rw blocked same
        | inr free ↦ rw free (elim (Option-cases (reason k require_signed m)) [
          | inr (why, b) ↦ rw b same
          | inl b ↦ rw b (act_on-content s.binding_rejections f b)
        ])
      ])
    ]

  receive_all-Steps :
      (messages : List PushedMessage) (r : Result PushError PushAck × PushState) (t : Tables)
      → Each P messages
      → Steps t r.1.tables
      → Steps t (receive_all k require_signed channel found node now messages r).1.tables
  unfolding receive_all
  receive_all-Steps messages (err e, s) t each steps = steps
  receive_all-Steps [] (ok ack, s) t each steps = steps
  receive_all-Steps (m ∷ messages) (ok ack, s) t each steps =
      receive_all-Steps messages _ t each.1 (also steps (act_on-Step s ack m each.0))

pub handle_push_messages-Steps :
    (P : PushedMessage → Type 0) (k : Identities) (require_signed : Bool) (peers : List Peer)
    (channel : ℕ) (messages : List PushedMessage) (node now : ℕ) (s : PushState)
    → Each P messages
    → Steps P k require_signed channel
        (find_channel channel s.tables.channels)
        node
        now
        s.tables
        (handle_push_messages k require_signed peers
          (some channel)
          messages
          (some node)
          now
          s).1.tables
unfolding handle_push_messages
handle_push_messages-Steps P k require_signed peers channel messages node now s each =
    elim (Bool-cases (is_trusted node peers)) [
      | inr stranger ↦ rw stranger nothing
      | inl trusted ↦ rw trusted (
          receive_all-Steps P k require_signed channel (find_channel channel s.tables.channels) node
            now messages _ s.tables each nothing)
    ]

abbrev pub Any : PushedMessage → Type 0
Any m = Unit

pub Each-Any : (messages : List PushedMessage) → Each Any messages
Each-Any [] = tt
Each-Any (m ∷ messages) = (tt, Each-Any messages)
