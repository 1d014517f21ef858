-- ===== src/Security/Invites/Blocks.antt =====
-- Repeated attempts and repeated failures stop an identity.
use hokora.Base.{
  ℕ, ◌+◌, ◌≤◌, ◌<◌, ◌≡◌, refl, ap, ◌∙◌, true, false, Option, none, some, List, [], ◌∷◌, ◌++◌, arith,
  leb, length, length-append, if◌then◌else◌,
}
use hokora.Base.Keys.{number_key}
use hokora.Bytes.{Bytes}
use hokora.Dict.{lookup, insert, lookup_or}
use hokora.Dict.Laws.{lookup-insert_self, contains-lookup, length-insert}
use hokora.Result.{err}
use hokora.Security.Invites.{
  Invite, InviteError, blocked, too_many_attempts, InviteManager, invite_rate_limit_max,
  invite_failure_block_threshold, invite_failure_block_duration, max_invite_rate_entries, recent,
  cleanup_stale_sync, is_redeem_blocked, append_attempt, admit, check_rate_limit, block_if,
  record_failure, redeem_invite,
}

-- The attempts of an identity that are within the window.
abbrev pub recent_attempts : InviteManager → ℕ → ℕ → List ℕ
recent_attempts m identity now = recent now (lookup_or identity [] m.redemption_attempts)

abbrev pub recent_failures : InviteManager → ℕ → ℕ → List ℕ
recent_failures m identity now = recent now (lookup_or identity [] m.failure_attempts)

-- The time that a failure sets where it blocks.
block_lem :
    (m : InviteManager) (identity now : ℕ)
    → 2 ≤ length (recent_failures m identity now)
    → lookup identity (record_failure m identity now).blocked_until
      ≡ some (now + invite_failure_block_duration)
unfolding record_failure
block_lem m identity now two =
    let failures = recent_failures m identity now ++ now ∷ [] in
    let many : leb invite_failure_block_threshold (length failures) ≡ true =
      ground (arith, length-append (recent_failures m identity now) (now ∷ [])) in
    let m' =
      if leb max_invite_rate_entries (length m.failure_attempts)
      then cleanup_stale_sync m 600 now
      else m in
    ap
      (λ b.
        lookup identity
          (block_if b identity (now + invite_failure_block_duration) m'.blocked_until))
      many
    ∙ lookup-insert_self identity (now + invite_failure_block_duration) m'.blocked_until

-- The third failure of an identity within ten minutes blocks it for an hour: whatever token it tries
-- before the hour is over, the redemption is refused, and neither the invites nor the counts change.
pub third_failure_blocks :
    (hash : Bytes → ℕ) (rows : List Invite) (m : InviteManager) (raw : Bytes)
    (identity now later : ℕ)
    → 2 ≤ length (recent_failures m identity now)
    → later < now + 3600
    → redeem_invite hash rows (record_failure m identity now) false raw identity later
      ≡ (err blocked, rows, record_failure m identity now)
unfolding redeem_invite
third_failure_blocks hash rows m raw identity now later two soon =
    rw (stopped (block_lem m identity now two)) refl
  where
    stopped :
        lookup identity (record_failure m identity now).blocked_until
          ≡ some (now + invite_failure_block_duration)
        → is_redeem_blocked (record_failure m identity now) identity later ≡ true
    stopped until = unfold is_redeem_blocked in ground arith

module _ (m : InviteManager) (identity now : ℕ) where
  -- The table with room: the attempt is stored, in the identity's list.
  stored :
      (attempts : List ℕ)
      → lookup identity
          (append_attempt
            (record m { redemption_attempts = insert identity attempts m.redemption_attempts })
            identity
            attempts
            now).redemption_attempts
        ≡ some (attempts ++ now ∷ [])
  stored attempts = ground (
    arith,
    contains-lookup identity (insert identity attempts m.redemption_attempts),
    lookup-insert_self identity attempts m.redemption_attempts,
    lookup-insert_self identity (attempts ++ now ∷ [])
        (insert identity attempts m.redemption_attempts),
  )

-- While the table of attempts has room, an attempt is let through exactly if fewer than five were
-- made within the last ten minutes, and then it is recorded after those.
pub check_rate_limit_lem :
    (m : InviteManager) (identity now : ℕ)
    → length m.redemption_attempts + 1 < max_invite_rate_entries
    → let (refused, m') = check_rate_limit m identity now in
      (5 ≤ length (recent_attempts m identity now) → refused ≡ some too_many_attempts)
      × (length (recent_attempts m identity now) < 5
          → (refused ≡ none)
            × (lookup identity m'.redemption_attempts
                ≡ some (recent_attempts m identity now ++ now ∷ [])))
unfolding check_rate_limit
check_rate_limit_lem m identity now room =
    let attempts = recent_attempts m identity now in
    let small : leb max_invite_rate_entries
          (length (insert identity attempts m.redemption_attempts))
        ≡ false =
      ground (arith, length-insert identity attempts m.redemption_attempts) in
    (λ many. ground arith, λ few. passes attempts small few)
  where
    passes :
        (attempts : List ℕ)
        → leb max_invite_rate_entries (length (insert identity attempts m.redemption_attempts))
          ≡ false
        → length attempts < 5
        → let m' = record m {
          redemption_attempts = insert identity attempts m.redemption_attempts;
        } in
          let r : Option InviteError × InviteManager =
            if leb invite_rate_limit_max (length attempts)
            then (some too_many_attempts, m')
            else admit m' identity attempts now in
          (r.0 ≡ none) × (lookup identity r.1.redemption_attempts ≡ some (attempts ++ now ∷ []))
    passes attempts small few =
        let below : leb invite_rate_limit_max (length attempts) ≡ false = ground arith in
        rw (below, small) (refl, stored m identity now attempts)
