-- ===== src/Core/Processor/Restriction.antt =====
-- src/hokora/core/message.py: what an identity without a role can do in a write-restricted channel.
use hokora.Base.{
  ℕ, ◌⊎◌, ◌≡◌, refl, sym, ◌∙◌, ap, Bool, false, Option, none, some, [], arith, ◌==◌, inl, inr,
  Bool-cases,
}
use hokora.Base.Bits.{bit, bit_and-pow}
use hokora.Bytes.{Bytes}
use hokora.Text.{Text}
use hokora.Result.{Result, ok, err}
use hokora.Db.{write_restricted, Channel, Tables}
use hokora.Db.Roles.{get_identity_roles}
use hokora.Db.Messages.{find_channel}
use hokora.Security.Ban.{is_blocked}
use hokora.Security.RateLimit.{RateLimiter}
use hokora.Security.Permissions.{has_named, has_permission, get_effective_permissions}
use hokora.Security.Permissions.Meaning.{may, some_role, get_effective_permissions_bits}
use hokora.Core.Processor.Envelope.{
  msg_text, msg_media, MessageEnvelope, ProcessError, body_too_large, is_banned, not_a_member,
  missing_permission, MessageProcessor, State,
}
use hokora.Core.Processor.Checks.{
  check_limits, is_member, check_type, check_after_limits, check_permissions,
}
use hokora.Core.Processor.Ingest.{route_checked, is_too_large, shortened, ingest}

-- The sender neither owns the node nor has a role, and the channel is write-restricted.
pub record IsRestricted (p : MessageProcessor) (t : Tables) (sender : ℕ) (channel : Channel)
    : Type 0 where
  pub owner : ℕ
  pub has_owner : p.node_owner ≡ some owner
  pub not_owner : (sender == owner) ≡ false
  pub no_roles : get_identity_roles t sender (some channel.id) false ≡ []
  pub restricted : channel.access_mode ≡ write_restricted

restricted_bit :
    (p : MessageProcessor) (t : Tables) (sender : ℕ) (channel : Channel)
    (r : IsRestricted p t sender channel)
    → bit 0 (get_effective_permissions r.owner t sender channel) ≡ false
unfolding may has_named some_role
restricted_bit p t sender channel r =
    get_effective_permissions_bits r.owner t sender channel 0
    ∙ rw (r.not_owner, r.no_roles, r.restricted) (ground arith)

may_not_send :
    (p : MessageProcessor) (t : Tables) (sender : ℕ) (channel : Channel)
    → (r : IsRestricted p t sender channel)
    → has_permission (get_effective_permissions r.owner t sender channel) 1 ≡ false
may_not_send p t sender channel r =
    sym (bit_and-pow 0 (get_effective_permissions r.owner t sender channel))
    ∙ restricted_bit p t sender channel r

route_refused :
    (p : MessageProcessor) (channel : Channel) (now : ℕ) (iv : Bytes) (text : Bool → Text)
    (r : Result ProcessError MessageEnvelope × State) (x : ProcessError)
    → r.0 ≡ err x
    → (route_checked p channel now iv text r).0 ≡ err x
route_refused p channel now iv text (err error, s) x h =
    let same : error ≡ x = cc in ap (λ (y : ProcessError). err y) same
route_refused p channel now iv text (ok e, s) x h = absurd (cc)

-- Texts and media are the types that the checks hold against the permission to send.
abbrev pub IsSent : MessageEnvelope → Type 0
IsSent e = (e.type ≡ msg_text) ⊎ (e.type ≡ msg_media)

type_refused :
    (t : Tables) (perms : ℕ) (e : MessageEnvelope)
    → IsSent e
    → has_permission perms 1 ≡ false
    → check_type t perms e ≡ some missing_permission
unfolding check_type
type_refused t perms e (inl is_text) h = rw (is_text, h) refl
type_refused t perms e (inr is_media) h = rw (is_media, h) refl

module _ (p : MessageProcessor) (s : State) (e : MessageEnvelope) (channel : Channel)
    (r : IsRestricted p s.tables e.sender_hash channel) where
  limits_refused :
      (o : Option ProcessError × Option RateLimiter)
      → IsSent e
      → (x : ProcessError) × ((check_after_limits p r.owner s e channel o).0 ≡ err x)
  limits_refused (some error, limiter) sent = (error, refl)
  limits_refused (none, limiter) sent =
      let perms = get_effective_permissions r.owner s.tables e.sender_hash channel in
      let refused =
        type_refused s.tables perms e sent (may_not_send p s.tables e.sender_hash channel r) in
      elim (Bool-cases (is_member p s.tables e.sender_hash channel)) [
        | inl member ↦ (missing_permission, rw (member, refused) refl)
        | inr other ↦ rw other (not_a_member, refl)
      ]

  check_refused :
      (now : ℕ) → IsSent e → (x : ProcessError) × ((check_permissions p s e channel now).0 ≡ err x)
  unfolding check_permissions is_member
  check_refused now sent = elim (Bool-cases (is_blocked s.tables (some e.sender_hash))) [
    | inl b ↦ rw (r.has_owner, b) (is_banned, refl)
    | inr b ↦
        rw (r.has_owner, b)
          (limits_refused (check_limits s.rate_limiter e.sender_hash channel now) sent)
  ]

-- In a write-restricted channel every text and every media message of an identity that has no
-- role there or on the node, and does not own the node, ends in an error.
pub ingest-restricted :
    (p : MessageProcessor) (s : State) (e : MessageEnvelope) (channel : Channel) (now : ℕ)
    (iv : Bytes) (text : Bool → Text)
    → find_channel e.channel_id s.tables.channels ≡ some channel
    → IsRestricted p s.tables e.sender_hash channel
    → IsSent e
    → (x : ProcessError) × ((ingest p s e now iv text).0 ≡ err x)
unfolding ingest
ingest-restricted p s e channel now iv text k r sent = elim (Bool-cases (is_too_large e.body)) [
  | inl large ↦ (body_too_large, rw (k, large) refl)
  | inr fits ↦
      let e1 = record e { display_name = shortened e.display_name } in
      let (x, refused) = check_refused p s e1 channel r now sent in
      (
        x,
        rw (k, fits)
            (route_refused p channel now iv text (check_permissions p s e1 channel now) x refused),
      )
]
