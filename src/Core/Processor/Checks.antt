-- ===== src/Core/Processor/Checks.antt =====
-- src/hokora/core/message.py: `_check_permissions`.
use hokora.Base.{
  ℕ, Bool, true, false, not, ◌||◌, Option, none, some, String, List, [], ◌∷◌, ◌==◌, if◌then◌else◌,
}
use hokora.Base.Keys.{◌≟◌, text_key}
use hokora.Result.{Result, ok, err}
use hokora.Db.{AccessMode, public, write_restricted, private, Channel, Role, Message, Tables}
use hokora.Db.Roles.{get_identity_roles}
use hokora.Db.Messages.{find_message}
use hokora.Security.Ban.{is_blocked}
use hokora.Security.RateLimit.{RateLimitExceeded, RateLimiter, check_rate_limit, check_slowmode}
use hokora.Security.Permissions.{
  perm_send_messages, perm_send_media, perm_create_threads, perm_use_mentions,
  perm_mention_everyone, perm_add_reactions, perm_delete_own, perm_delete_others, perm_pin_messages,
  perm_edit_own, has_permission, get_effective_permissions,
}
use hokora.Core.Processor.Envelope.{
  msg_text, msg_media, msg_reaction, msg_thread_reply, msg_delete, msg_pin, msg_edit,
  MessageEnvelope, ProcessError, is_banned, not_a_member, missing_permission, not_the_author,
  rate_limited, MessageProcessor, State,
}

abbrev pub slowmode_after :
    Result RateLimitExceeded Bool × RateLimiter
    → ℕ
    → Channel
    → ℕ
    → Result RateLimitExceeded Bool × RateLimiter
slowmode_after (err e, l) sender channel now = (err e, l)
slowmode_after (ok passed, l) sender channel now =
    check_slowmode l sender channel.id channel.slowmode now

abbrev pub limited :
    Result RateLimitExceeded Bool × RateLimiter → Option ProcessError × Option RateLimiter
limited (err e, l) = (some rate_limited, some l)
limited (ok passed, l) = (none, some l)

-- Both limits, where there is a limiter.
unfoldable pub check_limits :
    Option RateLimiter → ℕ → Channel → ℕ → Option ProcessError × Option RateLimiter
check_limits none sender channel now = (none, none)
check_limits (some l) sender channel now =
    limited (slowmode_after (check_rate_limit l sender now) sender channel now)

abbrev pub is_node : Option ℕ → ℕ → Bool
is_node none sender = false
is_node (some node) sender = sender == node

abbrev pub is_private : AccessMode → Bool
is_private public = false
is_private write_restricted = false
is_private private = true

abbrev pub has_roles : List Role → Bool
has_roles [] = false
has_roles (role ∷ roles) = true

-- The strict membership check of private and sealed channels.
unfoldable pub is_member : MessageProcessor → Tables → ℕ → Channel → Bool
is_member p t sender channel =
    not (is_private channel.access_mode || channel.sealed)
    || (is_node p.node_identity sender
        || has_roles (get_identity_roles t sender (some channel.id) true))

abbrev pub need : ℕ → ℕ → Option ProcessError
need perms required = if has_permission perms required then none else some missing_permission

abbrev pub is_sender : Option ℕ → ℕ → Bool
is_sender none sender = false
is_sender (some s) sender = s == sender

abbrev pub check_delete : ℕ → ℕ → Option Message → Option ProcessError
check_delete perms sender none = none
check_delete perms sender (some target) =
    if is_sender target.sender_hash sender
    then need perms perm_delete_own
    else need perms perm_delete_others

abbrev pub check_author : ℕ → Option Message → Option ProcessError
check_author sender none = none
check_author sender (some target) =
    if is_sender target.sender_hash sender then none else some not_the_author

-- The message that an envelope points to, if there is one.
abbrev pub target_of : Tables → Option ℕ → Option Message
target_of t none = none
target_of t (some target) = find_message target t.messages

-- The check for the envelope's type; there is none for system messages and unknown types.
unfoldable pub check_type : Tables → ℕ → MessageEnvelope → Option ProcessError
check_type t perms e =
    if e.type == msg_text
    then need perms perm_send_messages
    else if e.type == msg_media
    then if has_permission perms perm_send_messages
      then need perms perm_send_media
      else some missing_permission
    else if e.type == msg_thread_reply
    then need perms perm_create_threads
    else if e.type == msg_reaction
    then need perms perm_add_reactions
    else if e.type == msg_pin
    then need perms perm_pin_messages
    else if e.type == msg_delete
    then check_delete perms e.sender_hash (target_of t e.reply_to)
    else if e.type == msg_edit
    then if has_permission perms perm_edit_own
      then check_author e.sender_hash (target_of t e.reply_to)
      else some missing_permission
    else none

-- `[m for m in mentions if m != "@everyone"]`
unfoldable pub without_everyone : List String → List String
without_everyone [] = []
without_everyone (m ∷ ms) =
    let rest = without_everyone ms in if m ≟ "@everyone" then rest else m ∷ rest

unfoldable pub strip_mentions : ℕ → List String → List String
strip_mentions perms mentions =
    if has_permission perms perm_use_mentions
    then if has_permission perms perm_mention_everyone then mentions else without_everyone mentions
    else []

abbrev pub check_with :
    ℕ → Tables → MessageEnvelope → Option ProcessError → Result ProcessError MessageEnvelope
check_with perms t e (some error) = err error
check_with perms t e none = ok (record e { mentions = strip_mentions perms e.mentions })

abbrev pub check_after_limits :
    MessageProcessor
    → ℕ
    → State
    → MessageEnvelope
    → Channel
    → Option ProcessError × Option RateLimiter
    → Result ProcessError MessageEnvelope × State
check_after_limits p node_owner s e channel (some error, limiter) =
    (err error, record s { rate_limiter = limiter })
check_after_limits p node_owner s e channel (none, limiter) =
    let perms = get_effective_permissions node_owner s.tables e.sender_hash channel in
    (
      if is_member p s.tables e.sender_hash channel
          then check_with perms s.tables e (check_type s.tables perms e)
          else err not_a_member,
      record s { rate_limiter = limiter },
    )

abbrev pub check_as :
    MessageProcessor
    → Option ℕ
    → State
    → MessageEnvelope
    → Channel
    → ℕ
    → Result ProcessError MessageEnvelope × State
check_as p none s e channel now = (ok e, s)
check_as p (some node_owner) s e channel now =
    if is_blocked s.tables (some e.sender_hash)
    then (err is_banned, s)
    else check_after_limits p node_owner s e channel
        (check_limits s.rate_limiter e.sender_hash channel now)

unfoldable pub check_permissions :
    MessageProcessor
    → State
    → MessageEnvelope
    → Channel
    → ℕ
    → Result ProcessError MessageEnvelope × State
check_permissions p s e channel now = check_as p p.node_owner s e channel now
