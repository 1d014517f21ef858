-- ===== src/Core/Processor/Tests.antt =====
-- Ingestions into the sample tables.
use hokora.Base.{
  ℕ, zero, suc, ◌+◌, ◌≤◌, ◌<◌, ◌≡◌, ◌≢◌, refl, Bool, true, false, Option, none, some, String, List,
  [], ◌∷◌, ◌++◌, arith, ◌==◌, length, if◌then◌else◌, inl, inr, Bool-cases, replicate,
}
use hokora.Base.Keys.{text_key, bytes_key}
use hokora.Base.Bits.{bit}
use hokora.Text.{Text, utf8}
use hokora.Dict.{lookup, contains, insert}
use hokora.Result.{ok, err}
use hokora.Db.{Channel, Reaction, Message, Tables}
use hokora.Db.Roles.{get_identity_roles, find_role_named}
use hokora.Db.Messages.{find_channel, find_message, raise_seq}
use hokora.Core.Sequencer.{next_seq}
use hokora.Samples.{news, everyone, greeting, sample}
use hokora.Security.Ban.{is_blocked}
use hokora.Security.Sealed.{Gcm}
use hokora.Security.SealedInvariant.{seal_for_origin}
use hokora.Core.Processor.Envelope.{
  msg_text, msg_thread_reply, msg_reaction, msg_edit, MessageEnvelope, ProcessError,
  MessageProcessor, State, compute_hash,
}
use hokora.Core.Processor.Checks.{check_limits, check_permissions}
use hokora.Core.Processor.Handlers.{change_row, insert_message, require_target_in_channel}
use hokora.Core.Processor.Reacting.{reacted_message}
use hokora.Core.Processor.Ingest.{assign_place, store_message, route, ingest}
use hokora.Core.Processor.Sequences.{timeline, latest, InOrder}
use hokora.Core.Processor.Numbering.{ingest-InOrder}
use hokora.Core.Processor.Secrecy.{IsSecretIn, ingest-IsSecretIn}
use hokora.Core.Processor.Boundaries.{Kept, ingest-Kept}
use hokora.Core.Processor.Reactions.{first_entry, process_all, first_reaction_stays}
use hokora.Core.Processor.Restriction.{IsRestricted, ingest-restricted}
use hokora.Core.Processor.Bypass.{restriction_bypassed}

abbrev toy : Gcm
toy = record {
  gcm_encrypt = λ k n p a. p;
  gcm_decrypt = λ k n p a. some p;
  encode_id = λ id. id ∷ [];
}

-- A processor of node 1, without a key for any channel, and with hashes that tell times apart.
abbrev processor : MessageProcessor
processor = record {
  node_owner = some 1;
  node_identity = some 1;
  sealed_manager = none;
  gcm = toy;
  hash = λ channel sender time type body target. time + 1000;
  pin_hash = λ channel sender time. time + 5000;
}

abbrev start : State
start = record {
  tables = sample;
  sequencer = record { cache = []; thread_cache = [] };
  rate_limiter = none;
}

-- Identity 12 says "ok" in a channel.
abbrev saying : ℕ → ℕ → Option ℕ → MessageEnvelope
saying channel kind target = record {
  channel_id = channel;
  sender_hash = 12;
  timestamp = 60;
  type = kind;
  body = some (111 ∷ 107 ∷ []);
  media_path = none;
  reply_to = target;
  ttl = none;
  sender_public_key = none;
  display_name = none;
  mentions = "@everyone" ∷ "bob" ∷ [];
  reactions = [];
}

abbrev pin_text : Bool → Text
pin_text pinned = []

abbrev after : MessageEnvelope → State
after e = (ingest processor start e 70 [] pin_text).1

sample-InOrder : InOrder sample
unfolding timeline latest find_channel
sample-InOrder channel = ground arith

ingest-InOrder_example : InOrder (after (saying 5 msg_text none)).tables
ingest-InOrder_example =
    ingest-InOrder processor start (saying 5 msg_text none) 70 [] pin_text sample-InOrder

lobby_goes_on : timeline 5 (after (saying 5 msg_text none)).tables.messages ≡ 1 ∷ 2 ∷ []
unfolding timeline ingest find_channel utf8 hokora.Text.utf8_char check_permissions is_blocked
    check_limits hokora.Core.Processor.Checks.is_member hokora.Core.Processor.Checks.check_type
    hokora.Core.Processor.Checks.strip_mentions hokora.Core.Processor.Checks.without_everyone
    hokora.Security.Permissions.get_effective_permissions hokora.Security.Permissions.has_named
    get_identity_roles hokora.Security.Permissions.combine hokora.Security.Permissions.strip_write
    hokora.Base.Bits.and_not hokora.Security.Permissions.with_roles
    hokora.Security.Permissions.or_each hokora.Security.Permissions.all_allow
    hokora.Security.Permissions.all_deny find_role_named compute_hash insert_message assign_place
    route store_message next_seq find_message raise_seq insert lookup seal_for_origin
    hokora.Db.Roles.get_all_channel_overrides
lobby_goes_on = refl

sample-IsSecretIn : IsSecretIn sample.channels sample.messages
unfolding find_channel
sample-IsSecretIn = (λ ch f s. cc, tt)

ingest-IsSecretIn_example :
    let t' = (after (saying 5 msg_text none)).tables in IsSecretIn t'.channels t'.messages
ingest-IsSecretIn_example =
    ingest-IsSecretIn processor start (saying 5 msg_text none) 70 [] pin_text sample-IsSecretIn

ingest-Kept_example :
    (m' : Message) × (find_message 900 (after (saying 5 msg_edit (some 900))).tables.messages
      ≡ some m')
    × Kept 12 5 greeting m'
ingest-Kept_example =
    ingest-Kept processor start (saying 5 msg_edit (some 900)) 70 [] pin_text 900 greeting
      (unfold find_message in refl)

-- Identity 12 is the first to react with "ok", and 13 and 12 follow.
first_reaction_stays_example :
    process_all
      (saying 5 msg_reaction (some 900)
        ∷ record (saying 5 msg_reaction (some 900)) { sender_hash = 13 }
        ∷ saying 5 msg_reaction (some 900)
        ∷ [])
      start
    ≡ change_row start 900 (reacted_message (111 ∷ 107 ∷ []) (first_entry 12))
first_reaction_stays_example =
    first_reaction_stays start (saying 5 msg_reaction (some 900)) greeting (111 ∷ 107 ∷ [])
      (record (saying 5 msg_reaction (some 900)) { sender_hash = 13 }
        ∷ saying 5 msg_reaction (some 900)
        ∷ [])
      (unfold require_target_in_channel find_message in refl) refl (omega arith)
      (unfold contains in refl) (refl, refl, (refl, refl, tt))

bob-IsRestricted : IsRestricted processor sample 12 news
unfolding get_identity_roles
bob-IsRestricted = record {
  owner = 1;
  has_owner = refl;
  not_owner = refl;
  no_roles = refl;
  restricted = refl;
}

ingest-restricted_example :
    (x : ProcessError) × ((ingest processor start (saying 6 msg_text none) 70 [] pin_text).0
      ≡ err x)
ingest-restricted_example =
    ingest-restricted processor start (saying 6 msg_text none) news 70 [] pin_text
      (unfold find_channel in refl) bob-IsRestricted (inl refl)

restriction_bypassed_example :
    (m : Message) × ((ingest processor start (saying 6 msg_thread_reply none) 70 [] pin_text).0
      ≡ ok m)
    × ((after (saying 6 msg_thread_reply none)).tables.messages ≡ greeting ∷ m ∷ [])
    × (m.seq ≡ some 1)
    × (m.body ≡ some (111 ∷ 107 ∷ []))
    × (m.channel_id ≡ 6)
    × (m.sender_hash ≡ some 12)
restriction_bypassed_example =
    restriction_bypassed processor start (saying 6 msg_thread_reply none) news 70 [] pin_text
      everyone none (unfold find_channel in refl) bob-IsRestricted refl refl refl
      (unfold utf8 in refl) (unfold compute_hash find_message in refl) (unfold is_blocked in refl)
      (unfold check_limits in refl) (unfold find_role_named in refl) (unfold bit in refl)
