-- ===== src/Core/Processor/Bypass.antt =====
-- src/hokora/core/message.py: a thread reply without a target, in a write-restricted channel.
use hokora.Base.{
  ℕ, ◌+◌, ◌≡◌, refl, sym, ◌∙◌, ap, Bool, true, false, Option, none, some, String, List, [], ◌∷◌,
  ◌++◌,
}
use hokora.Base.Bits.{bit, bit_and-pow}
use hokora.Bytes.{Bytes}
use hokora.Text.{Text}
use hokora.Result.{Result, ok}
use hokora.Db.{Channel, Role, Message, Tables}
use hokora.Db.Identities.{upsert}
use hokora.Db.Roles.{find_role_named}
use hokora.Db.Messages.{find_channel, find_message}
use hokora.Core.Sequencer.{next_found, next_seq}
use hokora.Security.Ban.{is_blocked}
use hokora.Security.RateLimit.{RateLimiter}
use hokora.Security.SealedInvariant.{seal_for_origin, plain}
use hokora.Security.Permissions.{
  has_named, role_everyone, has_permission, get_effective_permissions,
}
use hokora.Security.Permissions.Meaning.{may, some_role, get_effective_permissions_bits}
use hokora.Core.Processor.Envelope.{
  msg_thread_reply, MessageEnvelope, ProcessError, MessageProcessor, State, compute_hash,
}
use hokora.Core.Processor.Checks.{
  check_limits, is_member, check_type, strip_mentions, check_with, check_after_limits,
  check_permissions,
}
use hokora.Core.Processor.Handlers.{insert_unless, insert_message}
use hokora.Core.Processor.Ingest.{
  Place, place_main, place_for, assign_place, stored_row, finish, store_sealed, store_placed,
  keep_sender_key, store_unless, store_message, route, route_checked, shortened, is_too_large,
  ingest,
}
use hokora.Core.Processor.Restriction.{IsRestricted}

-- Creating threads is permission 2.
threads_bit :
    (p : MessageProcessor) (t : Tables) (sender : ℕ) (channel : Channel) (everyone : Role)
    (r : IsRestricted p t sender channel)
    → find_role_named role_everyone t.roles ≡ some everyone
    → bit 2 everyone.permissions ≡ true
    → has_permission (get_effective_permissions r.owner t sender channel) 4 ≡ true
unfolding may has_named some_role
threads_bit p t sender channel everyone r found has =
    let perms = get_effective_permissions r.owner t sender channel in
    let bits : bit 2 perms ≡ true =
      get_effective_permissions_bits r.owner t sender channel 2
      ∙ rw (r.not_owner, r.no_roles, found, has) refl in
    sym (bit_and-pow 2 perms) ∙ bits

module _ (p : MessageProcessor) (s : State) (e : MessageEnvelope) (channel : Channel) (now : ℕ)
    (iv : Bytes) (k : find_channel e.channel_id s.tables.channels ≡ some channel)
    (open_text : channel.sealed ≡ false) where
  not_sealed : seal_for_origin p.gcm p.sealed_manager channel iv e.body ≡ some (plain e.body)
  unfolding seal_for_origin
  not_sealed = rw open_text refl

  keep_sender_key_messages :
      (u : State) (sender : ℕ) (key : Option ℕ)
      → (keep_sender_key u sender now key).tables.messages ≡ u.tables.messages
  unfolding upsert
  keep_sender_key_messages u sender none = refl
  keep_sender_key_messages u sender (some key) = refl

  -- A message without a target is stored under the channel's next number.
  main_stored :
      e.reply_to ≡ none
      → find_message (compute_hash p e) s.tables.messages ≡ none
      → (m : Message) × ((store_message p s e channel now iv).0 ≡ ok m)
        × ((store_message p s e channel now iv).1.tables.messages ≡ s.tables.messages ++ m ∷ [])
        × (m.seq ≡ some (channel.latest_seq + 1))
        × (m.body ≡ e.body)
        × (m.channel_id ≡ e.channel_id)
        × (m.sender_hash ≡ some e.sender_hash)
  unfolding store_message assign_place next_seq insert_message
  main_stored nowhere fresh =
      let (n, q, t) = next_found s.sequencer s.tables e.channel_id (some channel) in
      let place : Place = record { seq = some (channel.latest_seq + 1); thread_seq = none } in
      let u : State = record s { sequencer = q; tables = t } in
      let m = stored_row p e (compute_hash p e) now place (plain e.body) in
      let placed : assign_place s e now ≡ (some place, u) =
        ap (place_for s e now) nowhere
        ∙ ap (λ (o : Option Channel). place_main s (next_found s.sequencer s.tables e.channel_id o))
            k in
      let stored : store_message p s e channel now iv ≡ finish e now (insert_message u m) =
        ap (store_unless p s e channel now iv) fresh
        ∙ ap (store_placed p e channel now iv) placed
        ∙ ap (store_sealed p e now place u) not_sealed in
      let inserted = ap (λ (o : Option Message). finish e now (insert_unless o u m)) fresh in
      let added : State = record u {
        tables = record u.tables { messages = u.tables.messages ++ m ∷ [] };
      } in
      (
        m,
        ap (λ (x : Result ProcessError Message × State). x.0) (stored ∙ inserted),
        ap (λ (x : Result ProcessError Message × State). x.1.tables.messages) (stored ∙ inserted)
            ∙ keep_sender_key_messages added e.sender_hash e.sender_public_key,
        refl,
        refl,
        refl,
        refl,
      )

module _ (p : MessageProcessor) (s : State) (e : MessageEnvelope) (channel : Channel)
    (now : ℕ) where
  reply_passes :
      (r : IsRestricted p s.tables e.sender_hash channel) (everyone : Role) (l : Option RateLimiter)
      → e.type ≡ msg_thread_reply
      → channel.sealed ≡ false
      → is_blocked s.tables (some e.sender_hash) ≡ false
      → check_limits s.rate_limiter e.sender_hash channel now ≡ (none, l)
      → find_role_named role_everyone s.tables.roles ≡ some everyone
      → bit 2 everyone.permissions ≡ true
      → (ms : List String) × (check_permissions p s e channel now
          ≡ (ok (record e { mentions = ms }), record s { rate_limiter = l }))
  unfolding check_permissions check_type is_member
  reply_passes r everyone l reply open_text free limits found has =
      let perms = get_effective_permissions r.owner s.tables e.sender_hash channel in
      let may_reply = threads_bit p s.tables e.sender_hash channel everyone r found has in
      let typed : check_type s.tables perms e ≡ none = rw (reply, may_reply) refl in
      let member : is_member p s.tables e.sender_hash channel ≡ true =
        rw (r.restricted, open_text) refl in
      let steps : check_permissions p s e channel now
          ≡ check_after_limits p r.owner s e channel (none, l) =
        rw (r.has_owner, free, limits) refl in
      let passed : check_after_limits p r.owner s e channel (none, l)
          ≡ (check_with perms s.tables e none, record s { rate_limiter = l }) =
        rw (member, typed) refl in
      (strip_mentions perms e.mentions, steps ∙ passed)

-- The restriction of a write-restricted channel can be got round: an identity that has no role
-- there or on the node, does not own the node, is not banned and is within its limits gets a text
-- of allowed size into the table of messages, as a row of the channel under the channel's next
-- number and under its own hash, by calling it a thread reply and naming no target, if the channel
-- is not sealed, the hash is new and everyone may create threads. No other row changes.
pub restriction_bypassed :
    (p : MessageProcessor) (s : State) (e : MessageEnvelope) (channel : Channel) (now : ℕ)
    (iv : Bytes) (text : Bool → Text) (everyone : Role) (l : Option RateLimiter)
    → find_channel e.channel_id s.tables.channels ≡ some channel
    → IsRestricted p s.tables e.sender_hash channel
    → channel.sealed ≡ false
    → e.type ≡ msg_thread_reply
    → e.reply_to ≡ none
    → is_too_large e.body ≡ false
    → find_message (compute_hash p e) s.tables.messages ≡ none
    → is_blocked s.tables (some e.sender_hash) ≡ false
    → check_limits s.rate_limiter e.sender_hash channel now ≡ (none, l)
    → find_role_named role_everyone s.tables.roles ≡ some everyone
    → bit 2 everyone.permissions ≡ true
    → (m : Message) × ((ingest p s e now iv text).0 ≡ ok m)
      × ((ingest p s e now iv text).1.tables.messages ≡ s.tables.messages ++ m ∷ [])
      × (m.seq ≡ some (channel.latest_seq + 1))
      × (m.body ≡ e.body)
      × (m.channel_id ≡ e.channel_id)
      × (m.sender_hash ≡ some e.sender_hash)
unfolding ingest route compute_hash
restriction_bypassed p s e channel now iv text everyone l k r open_text reply nowhere fits fresh
      free limits found has =
    let e1 = record e { display_name = shortened e.display_name } in
    let (ms, passed) =
      reply_passes p s e1 channel now r everyone l reply open_text free limits found has in
    let e2 = record e1 { mentions = ms } in
    let s2 = record s { rate_limiter = l } in
    let (m, stored, in_table, number, body, channel_id, sender) =
      main_stored p s2 e2 channel now iv k open_text nowhere fresh in
    let routed : route p s2 e2 channel now iv text ≡ store_message p s2 e2 channel now iv =
      rw reply refl in
    let into : ingest p s e now iv text
        ≡ route_checked p channel now iv text (check_permissions p s e1 channel now) =
      rw (k, fits) refl in
    let runs = into ∙ ap (route_checked p channel now iv text) passed ∙ routed in
    (
      m,
      ap (λ (x : Result ProcessError Message × State). x.0) runs ∙ stored,
      ap (λ (x : Result ProcessError Message × State). x.1.tables.messages) runs ∙ in_table,
      number,
      body,
      channel_id,
      sender,
    )
