-- ===== src/Security/Invites.antt =====
-- src/hokora/security/invites.py: redeeming invites, with the limits on attempts and failures. The
-- table of invites is a list of rows; `hash` is SHA-256 of a token. The lock is held throughout a
-- redemption, so that redemptions are steps. Whether an identity is banned and whether it has the
-- member role are arguments, since other tables hold them.
pub mod Uses
pub mod Blocks
mod Tests
use hokora.Base.{
  ℕ, ◌+◌, ◌*◌, ◌≤◌, Bool, true, false, not, ◌&&◌, ◌||◌, Option, none, some, List, [], ◌∷◌, ◌++◌,
  ltb, leb, ◌==◌, length, if◌then◌else◌,
}
use hokora.Base.Keys.{◌≟◌, number_key}
use hokora.Bytes.{Bytes}
use hokora.Dict.{Dict, lookup, contains, insert, keep, lookup_or}
use hokora.Result.{Result, ok, err}

abbrev pub invite_rate_limit_window : ℕ
invite_rate_limit_window = 600

abbrev pub invite_rate_limit_max : ℕ
invite_rate_limit_max = 5

abbrev pub invite_failure_block_threshold : ℕ
invite_failure_block_threshold = 3

abbrev pub invite_failure_block_duration : ℕ
invite_failure_block_duration = 3600

abbrev pub max_invite_rate_entries : ℕ
max_invite_rate_entries = 10000

pub record Invite : Type 0 where
  pub token_hash : ℕ
  pub channel_id : Option ℕ
  pub created_by : ℕ
  pub max_uses : ℕ
  pub uses : ℕ
  pub expires_at : Option ℕ
  pub revoked : Bool
  pub used_by : List ℕ
  pub used_at : List ℕ

pub data InviteError : Type 0 where
  banned blocked too_many_attempts too_many_tracked : InviteError
  invalid_token is_revoked has_expired used_up : InviteError

pub record InviteManager : Type 0 where
  pub redemption_attempts : Dict ℕ (List ℕ)
  pub failure_attempts : Dict ℕ (List ℕ)
  pub blocked_until : Dict ℕ ℕ

-- `now - t < INVITE_RATE_LIMIT_WINDOW`
unfoldable pub recent : ℕ → List ℕ → List ℕ
recent now [] = []
recent now (t ∷ ts) =
    let rest = recent now ts in if ltb now (t + invite_rate_limit_window) then t ∷ rest else rest

abbrev pub latest : List ℕ → ℕ
latest [] = 0
latest (t ∷ ts) = let rest = latest ts in if leb rest t then t else rest

-- `not attempts or now - max(attempts) > max_age`, negated
abbrev pub is_fresh : ℕ → ℕ → List ℕ → Bool
is_fresh max_age now [] = false
is_fresh max_age now (t ∷ ts) = not (ltb (latest (t ∷ ts) + max_age) now)

unfoldable pub cleanup_stale_sync : InviteManager → ℕ → ℕ → InviteManager
cleanup_stale_sync m max_age now = record {
  redemption_attempts = keep (is_fresh max_age now) m.redemption_attempts;
  failure_attempts = keep (is_fresh max_age now) m.failure_attempts;
  blocked_until = keep (λ until. not (ltb until now)) m.blocked_until;
}

unfoldable pub is_redeem_blocked : InviteManager → ℕ → ℕ → Bool
is_redeem_blocked m identity now = ltb now (lookup_or identity 0 m.blocked_until)

-- The list that was stored takes the attempt, unless the cleanup has dropped it.
abbrev pub append_attempt : InviteManager → ℕ → List ℕ → ℕ → InviteManager
append_attempt m identity attempts now =
    if contains identity m.redemption_attempts
    then record m {
      redemption_attempts = insert identity (attempts ++ now ∷ []) m.redemption_attempts;
    }
    else m

abbrev pub admit : InviteManager → ℕ → List ℕ → ℕ → Option InviteError × InviteManager
admit m identity attempts now =
    let cleaned = cleanup_stale_sync m 600 now in
    if not (leb max_invite_rate_entries (length m.redemption_attempts))
    then (none, append_attempt m identity attempts now)
    else if leb max_invite_rate_entries (length cleaned.redemption_attempts)
    then (some too_many_tracked, cleaned)
    else (none, append_attempt cleaned identity attempts now)

unfoldable pub check_rate_limit : InviteManager → ℕ → ℕ → Option InviteError × InviteManager
check_rate_limit m identity now =
    let attempts = recent now (lookup_or identity [] m.redemption_attempts) in
    let m' = record m { redemption_attempts = insert identity attempts m.redemption_attempts } in
    if leb invite_rate_limit_max (length attempts)
    then (some too_many_attempts, m')
    else admit m' identity attempts now

abbrev pub block_if : Bool → ℕ → ℕ → Dict ℕ ℕ → Dict ℕ ℕ
block_if true identity until d = insert identity until d
block_if false identity until d = d

unfoldable pub record_failure : InviteManager → ℕ → ℕ → InviteManager
record_failure m identity now =
    let failures = recent now (lookup_or identity [] m.failure_attempts) ++ now ∷ [] in
    let m' =
      if leb max_invite_rate_entries (length m.failure_attempts)
      then cleanup_stale_sync m 600 now
      else m in
    record m' {
      failure_attempts = insert identity failures m'.failure_attempts;
      blocked_until =
          block_if (leb invite_failure_block_threshold (length failures)) identity
            (now + invite_failure_block_duration) m'.blocked_until;
    }

-- `raw_token.split(":")[0]`; 58 is the colon.
unfoldable pub bare_token : Bytes → Bytes
bare_token [] = []
bare_token (b ∷ bs) = let rest = bare_token bs in if b == 58 then [] else b ∷ rest

unfoldable pub find_invite : ℕ → List Invite → Option Invite
find_invite wanted [] = none
find_invite wanted (row ∷ rows) =
    if row.token_hash == wanted then some row else find_invite wanted rows

-- `token_hash` is unique.
unfoldable pub update_invite : ℕ → (Invite → Invite) → List Invite → List Invite
update_invite wanted change [] = []
update_invite wanted change (row ∷ rows) =
    let rest = update_invite wanted change rows in
    if row.token_hash == wanted then change row ∷ rows else row ∷ rest

-- `token_hash` is the hash of the random token; the times are in seconds.
unfoldable pub create_invite : List Invite → ℕ → ℕ → Option ℕ → ℕ → ℕ → ℕ → List Invite
create_invite rows token_hash created_by channel max_uses expiry_hours now =
    rows
    ++ (record {
      token_hash = token_hash;
      channel_id = channel;
      created_by = created_by;
      max_uses = max_uses;
      uses = 0;
      expires_at = some (now + expiry_hours * 3600);
      revoked = false;
      used_by = [];
      used_at = [];
    })
      ∷ []

abbrev pub is_before : Option ℕ → ℕ → Bool
is_before none now = false
is_before (some t) now = not (t == 0) && ltb t now

-- Why a found invite is not accepted.
unfoldable pub refusal : Option Invite → ℕ → Option InviteError
refusal none now = some invalid_token
refusal (some invite) now =
    if invite.revoked
    then some is_revoked
    else if is_before invite.expires_at now
    then some has_expired
    else if ltb 0 invite.max_uses && leb invite.max_uses invite.uses
    then some used_up
    else none

unfoldable pub used : ℕ → ℕ → Invite → Invite
used identity now invite = record invite {
  uses = invite.uses + 1;
  used_by = invite.used_by ++ identity ∷ [];
  used_at = invite.used_at ++ now ∷ [];
}

abbrev pub settle :
    List Invite
    → ℕ
    → ℕ
    → ℕ
    → InviteManager
    → Option InviteError
    → Result InviteError ℕ × List Invite × InviteManager
settle rows token identity now m (some e) = (err e, rows, record_failure m identity now)
settle rows token identity now m none = (ok token, update_invite token (used identity now) rows, m)

abbrev pub attempt :
    List Invite
    → ℕ
    → ℕ
    → ℕ
    → Option InviteError × InviteManager
    → Result InviteError ℕ × List Invite × InviteManager
attempt rows token identity now (some e, m) = (err e, rows, m)
attempt rows token identity now (none, m) =
    settle rows token identity now m (refusal (find_invite token rows) now)

-- The member role is assigned after a redemption that returns the invite's hash.
unfoldable pub redeem_invite :
    (Bytes → ℕ)
    → List Invite
    → InviteManager
    → Bool
    → Bytes
    → ℕ
    → ℕ
    → Result InviteError ℕ × List Invite × InviteManager
redeem_invite hash rows m is_banned raw_token identity now =
    if is_banned
    then (err banned, rows, m)
    else if is_redeem_blocked m identity now
    then (err blocked, rows, m)
    else attempt rows (hash (bare_token raw_token)) identity now (check_rate_limit m identity now)

unfoldable pub revoke_invite : List Invite → ℕ → List Invite
revoke_invite rows token = update_invite token (λ invite. record invite { revoked = true }) rows
