-- ===== src/Security/Invites/Tests.antt =====
-- Runs of the invite manager.
use hokora.Base.{ℕ, ◌≤◌, ◌<◌, ◌≡◌, ◌≢◌, refl, false, none, some, List, [], ◌∷◌, ◌++◌, arith, length}
use hokora.Base.Keys.{number_key}
use hokora.Bytes.{Bytes}
use hokora.Dict.{lookup, contains, insert}
use hokora.Result.{ok, err}
use hokora.Security.Invites.{
  Invite, blocked, used_up, is_revoked, too_many_attempts, InviteManager, recent, is_redeem_blocked,
  check_rate_limit, record_failure, bare_token, find_invite, update_invite, create_invite, refusal,
  used, redeem_invite, revoke_invite,
}
use hokora.Security.Invites.Uses.{times, limit_of, no_invites, made, redeemed, Invites-times}
use hokora.Security.Invites.Blocks.{recent_attempts, third_failure_blocks, check_rate_limit_lem}

-- A toy hash: the first byte.
abbrev hash : Bytes → ℕ
hash [] = 0
hash (b ∷ bs) = b

abbrev fresh : InviteManager
fresh = record { redemption_attempts = []; failure_attempts = []; blocked_until = [] }

-- An invite with token 7, for one use.
abbrev one_invite : List Invite
one_invite = create_invite [] 7 1 none 1 72 1000

-- The composite token 7:1 is redeemed, and then it is used up.
abbrev after_use : List Invite
after_use = (redeem_invite hash one_invite fresh false (7 ∷ 58 ∷ 1 ∷ []) 11 1500).1

redeemed_once : (redeem_invite hash one_invite fresh false (7 ∷ 58 ∷ 1 ∷ []) 11 1500).0 ≡ ok 7
unfolding redeem_invite is_redeem_blocked check_rate_limit lookup contains insert recent bare_token
    create_invite find_invite refusal
redeemed_once = refl

used_up_then : (redeem_invite hash after_use fresh false (7 ∷ []) 12 1600).0 ≡ err used_up
unfolding redeem_invite is_redeem_blocked check_rate_limit lookup contains insert recent bare_token
    create_invite find_invite refusal update_invite used
used_up_then = refl

revoked_refused :
    (redeem_invite hash (revoke_invite one_invite 7) fresh false (7 ∷ []) 12 1600).0
    ≡ err is_revoked
unfolding redeem_invite is_redeem_blocked check_rate_limit lookup contains insert recent bare_token
    create_invite find_invite refusal update_invite revoke_invite
revoked_refused = refl

abbrev one_use : ℕ
one_use = 1

Invites-times_example :
    (row : Invite) × (find_invite 7 after_use ≡ some row)
    × (row.uses ≡ times 7 (7 ∷ []))
    × (one_use ≢ 0 → times 7 (7 ∷ []) ≤ one_use)
unfolding redeem_invite is_redeem_blocked check_rate_limit lookup contains insert recent bare_token
    create_invite find_invite refusal
Invites-times_example =
    Invites-times {hash = hash} 7 1
      (redeemed fresh false (7 ∷ 58 ∷ 1 ∷ []) 11 1500
        (made 7 1 none 1 72 1000 (unfold find_invite in refl) no_invites))
      (unfold limit_of in refl)

-- Identity 11 has failed twice.
abbrev failing : InviteManager
failing = record fresh {
  failure_attempts = (11, 1400 ∷ 1450 ∷ []) ∷ [];
  redemption_attempts = (11, 500 ∷ 1400 ∷ 1450 ∷ []) ∷ [];
}

third_failure_blocks_at_input :
    redeem_invite hash one_invite (record_failure failing 11 1500) false (7 ∷ []) 11 2000
    ≡ (err blocked, one_invite, record_failure failing 11 1500)
third_failure_blocks_at_input =
    third_failure_blocks hash one_invite failing (7 ∷ []) 11 1500 2000
      (unfold recent lookup in omega arith) (omega arith)

check_rate_limit_lem_at_input :
    let (refused, m') = check_rate_limit failing 11 1500 in
    (5 ≤ length (recent_attempts failing 11 1500) → refused ≡ some too_many_attempts)
    × (length (recent_attempts failing 11 1500) < 5
        → (refused ≡ none)
          × (lookup 11 m'.redemption_attempts
              ≡ some (recent_attempts failing 11 1500 ++ 1500 ∷ [])))
check_rate_limit_lem_at_input = check_rate_limit_lem failing 11 1500 (omega arith)
