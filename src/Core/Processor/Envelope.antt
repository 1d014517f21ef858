-- ===== src/Core/Processor/Envelope.antt =====
-- src/hokora/core/message.py: envelopes, the processor's parts, and what it raises. The stored media
-- metadata and LXMF signature fields are left out: they are stored as they come.
use hokora.Base.{ℕ, Option, String, List}
use hokora.Text.{Text}
use hokora.Dict.{Dict}
use hokora.Db.{Reaction, Tables}
use hokora.Core.Sequencer.{SequenceManager}
use hokora.Security.RateLimit.{RateLimiter}
use hokora.Security.Sealed.{Gcm, SealedChannelManager}

abbrev pub msg_text : ℕ
msg_text = 1

abbrev pub msg_media : ℕ
msg_media = 2

abbrev pub msg_system : ℕ
msg_system = 3

abbrev pub msg_reaction : ℕ
msg_reaction = 4

abbrev pub msg_thread_reply : ℕ
msg_thread_reply = 5

abbrev pub msg_delete : ℕ
msg_delete = 6

abbrev pub msg_pin : ℕ
msg_pin = 7

abbrev pub msg_edit : ℕ
msg_edit = 8

abbrev pub max_message_body_size : ℕ
max_message_body_size = 32_000

abbrev pub max_display_name_length : ℕ
max_display_name_length = 64

abbrev pub max_edit_chain_length : ℕ
max_edit_chain_length = 50

abbrev pub max_reactions_per_message : ℕ
max_reactions_per_message = 20

-- An empty body, target or name is `none`.
pub record MessageEnvelope : Type 0 where
  pub channel_id : ℕ
  pub sender_hash : ℕ
  pub timestamp : ℕ
  pub type : ℕ
  pub body : Option Text
  pub media_path : Option ℕ
  pub reply_to : Option ℕ
  pub ttl : Option ℕ
  pub sender_public_key : Option ℕ
  pub display_name : Option Text
  pub mentions : List String
  pub reactions : Dict Text Reaction

-- MessageError, then PermissionDenied, RateLimitExceeded and IntegrityError.
pub data ProcessError : Type 0 where
  channel_not_found body_too_large no_target target_not_found wrong_channel : ProcessError
  edit_chain_full no_emoji emoji_too_long : ProcessError
  is_banned not_a_member missing_permission not_the_author cannot_seal : ProcessError
  rate_limited duplicate_hash : ProcessError

-- `hash` is SHA-256 of the fields that `compute_hash` joins: channel, sender, time, type, body and
-- target. `pin_hash` is that of a pin's system message. `sealing_iv` is what `os.urandom` returns.
-- `node_owner` is the owner that the permission resolver knows, if there is a resolver.
pub record MessageProcessor : Type 0 where
  pub node_owner : Option ℕ
  pub node_identity : Option ℕ
  pub sealed_manager : Option SealedChannelManager
  pub gcm : Gcm
  pub hash : ℕ → ℕ → ℕ → ℕ → Option Text → Option ℕ → ℕ
  pub pin_hash : ℕ → ℕ → ℕ → ℕ

pub record State : Type 0 where
  pub tables : Tables
  pub sequencer : SequenceManager
  pub rate_limiter : Option RateLimiter

unfoldable pub compute_hash : MessageProcessor → MessageEnvelope → ℕ
compute_hash p e = p.hash e.channel_id e.sender_hash e.timestamp e.type e.body e.reply_to
