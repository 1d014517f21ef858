-- ===== src/Core/Processor/Checked.antt =====
-- src/hokora/core/message.py: what the permission checks leave as it was.
use hokora.Base.{ℕ, ◌≡◌, refl, Option, none, some, String, List, inl, inr, Bool-cases}
use hokora.Result.{ok, err}
use hokora.Db.{Channel, Tables}
use hokora.Security.Ban.{is_blocked}
use hokora.Security.RateLimit.{RateLimiter}
use hokora.Security.Permissions.{get_effective_permissions}
use hokora.Core.Processor.Envelope.{MessageEnvelope, ProcessError, MessageProcessor, State}
use hokora.Core.Processor.Checks.{
  check_limits, is_member, check_type, strip_mentions, check_with, check_after_limits, check_as,
  check_permissions,
}

after_limits_tables :
    (p : MessageProcessor) (owner : ℕ) (s : State) (e : MessageEnvelope) (channel : Channel)
    (o : Option ProcessError × Option RateLimiter)
    → (check_after_limits p owner s e channel o).1.tables ≡ s.tables
after_limits_tables p owner s e channel (some error, limiter) = refl
after_limits_tables p owner s e channel (none, limiter) = refl

check_as_tables :
    (p : MessageProcessor) (owner : Option ℕ) (s : State) (e : MessageEnvelope) (channel : Channel)
    (now : ℕ)
    → (check_as p owner s e channel now).1.tables ≡ s.tables
check_as_tables p none s e channel now = refl
check_as_tables p (some owner) s e channel now =
    elim (Bool-cases (is_blocked s.tables (some e.sender_hash))) [
      | inl b ↦ rw b refl
      | inr b ↦ rw b (
          after_limits_tables p owner s e channel
            (check_limits s.rate_limiter e.sender_hash channel now))
    ]

-- The checks change no table.
pub check_permissions_tables :
    (p : MessageProcessor) (s : State) (e : MessageEnvelope) (channel : Channel) (now : ℕ)
    → (check_permissions p s e channel now).1.tables ≡ s.tables
unfolding check_permissions
check_permissions_tables p s e channel now = check_as_tables p p.node_owner s e channel now

not_ok {ℓ κ} : {E : Type ℓ} {A : Type κ} {error : E} {a : A} → err error ≡ ok a → ⊥
not_ok h = cc

-- Only the mentions of an envelope may differ.
abbrev pub OnlyMentions : MessageEnvelope → MessageEnvelope → Type 0
OnlyMentions e e' = (ms : List String) × (record e { mentions = ms } ≡ e')

check_with_mentions :
    (perms : ℕ) (t : Tables) (e e' : MessageEnvelope) (o : Option ProcessError)
    → check_with perms t e o ≡ ok e'
    → OnlyMentions e e'
check_with_mentions perms t e e' (some error) h = absurd (cc)
check_with_mentions perms t e e' none h = (strip_mentions perms e.mentions, cc)

after_limits_mentions :
    (p : MessageProcessor) (owner : ℕ) (s : State) (e e' : MessageEnvelope) (channel : Channel)
    (o : Option ProcessError × Option RateLimiter)
    → (check_after_limits p owner s e channel o).0 ≡ ok e'
    → OnlyMentions e e'
after_limits_mentions p owner s e e' channel (some error, limiter) h = absurd (cc)
after_limits_mentions p owner s e e' channel (none, limiter) h =
    let perms = get_effective_permissions owner s.tables e.sender_hash channel in
    elim (Bool-cases (is_member p s.tables e.sender_hash channel)) [
      | inl m ↦ check_with_mentions perms s.tables e e' (check_type s.tables perms e) (rw m at h)
      | inr m ↦ absurd (not_ok (rw m at h))
    ]

check_as_mentions :
    (p : MessageProcessor) (owner : Option ℕ) (s : State) (e e' : MessageEnvelope)
    (channel : Channel) (now : ℕ)
    → (check_as p owner s e channel now).0 ≡ ok e'
    → OnlyMentions e e'
check_as_mentions p none s e e' channel now h = (e.mentions, cc)
check_as_mentions p (some owner) s e e' channel now h =
    elim (Bool-cases (is_blocked s.tables (some e.sender_hash))) [
      | inl b ↦ absurd (not_ok (rw b at h))
      | inr b ↦
          after_limits_mentions p owner s e e' channel
            (check_limits s.rate_limiter e.sender_hash channel now) (rw b at h)
    ]

-- An envelope that passes is as it was but for its mentions.
pub check_permissions_mentions :
    (p : MessageProcessor) (s : State) (e e' : MessageEnvelope) (channel : Channel) (now : ℕ)
    → (check_permissions p s e channel now).0 ≡ ok e'
    → OnlyMentions e e'
unfolding check_permissions
check_permissions_mentions p s e e' channel now h =
    check_as_mentions p p.node_owner s e e' channel now h
