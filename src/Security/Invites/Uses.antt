-- ===== src/Security/Invites/Uses.antt =====
-- src/hokora/security/invites.py: how often an invite is redeemed.
use hokora.Base.{
  ℕ, ◌+◌, ◌*◌, ◌≤◌, ◌≡◌, ◌≢◌, refl, sym, inl, inr, Bool, true, false, Option, none, some, List, [],
  ◌∷◌, ◌++◌, arith, ◌==◌, if◌then◌else◌, Bool-cases,
}
use hokora.Bytes.{Bytes}
use hokora.Result.{Result, ok, err}
use hokora.Security.Invites.{
  Invite, InviteError, InviteManager, is_redeem_blocked, check_rate_limit, bare_token, find_invite,
  update_invite, create_invite, refusal, used, settle, attempt, redeem_invite, revoke_invite,
}

-- The redemptions that succeeded, by the invite's token.
abbrev pub logged : Result InviteError ℕ → List ℕ → List ℕ
logged (err e) log = log
logged (ok token) log = token ∷ log

unfoldable pub times : ℕ → List ℕ → ℕ
times token [] = 0
times token (t ∷ ts) = let rest = times token ts in if t == token then rest + 1 else rest

-- The limit with which an invite was created; a limit of zero is none.
unfoldable pub limit_of : ℕ → List (ℕ × ℕ) → Option ℕ
limit_of token [] = none
limit_of token ((t, limit) ∷ made) =
    let rest = limit_of token made in if t == token then some limit else rest

-- Invites are created, redeemed by anyone in any state of the limits, and revoked, in any order. The
-- lists are the invites made, each with its limit, and the redemptions that succeeded. A new
-- invite has a new token hash, which the table requires to be unique.
pub data Invites (hash : Bytes → ℕ) : List (ℕ × ℕ) → List ℕ → List Invite → Type 0 where
  no_invites : Invites hash [] [] []
  made :
      {limits : List (ℕ × ℕ)} {log : List ℕ} {rows : List Invite} (token_hash created_by : ℕ)
      (channel : Option ℕ) (max_uses expiry_hours now : ℕ)
      → find_invite token_hash rows ≡ none
      → Invites hash limits log rows
      → Invites hash
          ((token_hash, max_uses) ∷ limits)
          log
          (create_invite rows token_hash created_by channel max_uses expiry_hours now)
  redeemed :
      {limits : List (ℕ × ℕ)} {log : List ℕ} {rows : List Invite} (m : InviteManager)
      (is_banned : Bool) (raw : Bytes) (identity now : ℕ)
      → Invites hash limits log rows
      → Invites hash limits
          (logged (redeem_invite hash rows m is_banned raw identity now).0 log)
          (redeem_invite hash rows m is_banned raw identity now).1
  withdrawn :
      {limits : List (ℕ × ℕ)} {log : List ℕ} {rows : List Invite} (token : ℕ)
      → Invites hash limits log rows
      → Invites hash limits log (revoke_invite rows token)

-- What holds of one token: its row, the limit it was made with, and its redemptions so far.
abbrev Agrees : Option Invite → Option ℕ → ℕ → Type 0
Agrees none none n = n ≡ 0
Agrees none (some limit) n = ⊥
Agrees (some row) none n = ⊥
Agrees (some row) (some limit) n = (row.max_uses ≡ limit) × (row.uses ≡ n) × (limit ≢ 0 → n ≤ limit)

find-append :
    (token : ℕ) (rows : List Invite) (row : Invite)
    → find_invite row.token_hash rows ≡ none
    → find_invite token (rows ++ row ∷ [])
      ≡ (if row.token_hash == token then some row else find_invite token rows)
unfolding find_invite
find-append token [] row new = refl
find-append token (x ∷ rows) row new = ground (arith, find-append token rows row, new)

find-update :
    (token wanted : ℕ) (change : Invite → Invite) (rows : List Invite)
    → ((row : Invite) → (change row).token_hash ≡ row.token_hash)
    → find_invite token (update_invite wanted change rows) ≡ (
        if wanted == token
        then elim (find_invite token rows) [ none ↦ none | some row ↦ some (change row) ]
        else find_invite token rows)
unfolding find_invite update_invite
find-update token wanted change [] same = ground arith
find-update token wanted change (row ∷ rows) same =
    ground (arith, find-update token wanted change rows same, same row)

-- A token that no row has has not been redeemed.
Agrees-none : (o : Option Invite) (l : Option ℕ) (n : ℕ) → o ≡ none → Agrees o l n → n ≡ 0
Agrees-none none none n h a = a
Agrees-none none (some limit) n h a = absurd a
Agrees-none (some row) l n h a = absurd (cc)

-- One more redemption of an invite that is not refused.
used-Agrees :
    (o : Option Invite) (l : Option ℕ) (n identity now : ℕ)
    → refusal o now ≡ none
    → Agrees o l n
    → Agrees (elim o [ none ↦ none | some row ↦ some (used identity now row) ]) l (n + 1)
unfolding refusal used
used-Agrees none l n identity now h a = absurd (cc)
used-Agrees (some row) none n identity now h a = absurd a
used-Agrees (some row) (some limit) n identity now h (same, counted, within) =
    (same, omega arith, λ bounded. ground arith)

revoked-Agrees :
    (o : Option Invite) (l : Option ℕ) (n : ℕ)
    → Agrees o l n
    → Agrees (elim o [ none ↦ none | some row ↦ some (record row { revoked = true }) ]) l n
revoked-Agrees none l n a = a
revoked-Agrees (some row) none n a = a
revoked-Agrees (some row) (some limit) n a = a

-- The invariant, for every token.
abbrev Tallied : List (ℕ × ℕ) → List ℕ → List Invite → Type 0
Tallied limits log rows =
    (token : ℕ) → Agrees (find_invite token rows) (limit_of token limits) (times token log)

settle-Tallied :
    (limits : List (ℕ × ℕ)) (log : List ℕ) (rows : List Invite) (wanted identity now : ℕ)
    (m : InviteManager) (r : Option InviteError)
    → refusal (find_invite wanted rows) now ≡ r
    → Tallied limits log rows
    → let result = settle rows wanted identity now m r in
      Tallied limits (logged result.0 log) result.1
unfolding times
settle-Tallied limits log rows wanted identity now m (some e) h a token = a token
settle-Tallied limits log rows wanted identity now m none h a token =
    let found = find-update token wanted (used identity now) rows (λ row. unfold used in refl) in
    elim (Bool-cases (wanted == token)) [
      | inl here ↦
          let same : wanted ≡ token = ground arith in
          let fine : refusal (find_invite token rows) now ≡ none = rw same at h in
          rw (found, here)
            (used-Agrees (find_invite token rows) (limit_of token limits) (times token log) identity
              now fine (a token))
      | inr other ↦ rw (found, other) (a token)
    ]

attempt-Tallied :
    (limits : List (ℕ × ℕ)) (log : List ℕ) (rows : List Invite) (wanted identity now : ℕ)
    (r : Option InviteError × InviteManager)
    → Tallied limits log rows
    → let result = attempt rows wanted identity now r in
      Tallied limits (logged result.0 log) result.1
attempt-Tallied limits log rows wanted identity now (some e, m) a = a
attempt-Tallied limits log rows wanted identity now (none, m) a =
    settle-Tallied limits log rows wanted identity now m _ refl a

redeem-Tallied :
    (hash : Bytes → ℕ) (limits : List (ℕ × ℕ)) (log : List ℕ) (rows : List Invite)
    (m : InviteManager) (is_banned : Bool) (raw : Bytes) (identity now : ℕ)
    → Tallied limits log rows
    → let result = redeem_invite hash rows m is_banned raw identity now in
      Tallied limits (logged result.0 log) result.1
unfolding redeem_invite
redeem-Tallied hash limits log rows m true raw identity now a = a
redeem-Tallied hash limits log rows m false raw identity now a =
    elim (Bool-cases (is_redeem_blocked m identity now)) [
      | inl stopped ↦ rw stopped a
      | inr free ↦ rw free (
          attempt-Tallied limits log rows (hash (bare_token raw)) identity now
            (check_rate_limit m identity now) a)
    ]

-- The row that `create_invite` adds.
abbrev new_invite : ℕ → ℕ → Option ℕ → ℕ → ℕ → ℕ → Invite
new_invite token created_by channel max_uses hours now = record {
  token_hash = token;
  channel_id = channel;
  created_by = created_by;
  max_uses = max_uses;
  uses = 0;
  expires_at = some (now + hours * 3600);
  revoked = false;
  used_by = [];
  used_at = [];
}

Invites-Tallied :
    {hash : Bytes → ℕ} {limits : List (ℕ × ℕ)} {log : List ℕ} {rows : List Invite}
    → Invites hash limits log rows
    → Tallied limits log rows
unfolding create_invite revoke_invite limit_of
Invites-Tallied no_invites token = unfold find_invite times in refl
Invites-Tallied (made {limits} {log} {rows} token_hash created_by channel max_uses hours now new i)
      token =
    let a = Invites-Tallied i token in
    let found =
      find-append token rows (new_invite token_hash created_by channel max_uses hours now) new in
    elim (Bool-cases (token_hash == token)) [
      | inl here ↦
          let same : token_hash ≡ token = ground arith in
          let unused : times token log ≡ 0 =
            Agrees-none (find_invite token rows) (limit_of token limits) (times token log)
              (rw same at new) a in
          rw (found, here) (refl, sym unused, λ bounded. omega arith)
      | inr other ↦ rw (found, other) a
    ]
Invites-Tallied {hash} (redeemed {limits} {log} {rows} m is_banned raw identity now i) token =
    redeem-Tallied hash limits log rows m is_banned raw identity now (Invites-Tallied i) token
Invites-Tallied (withdrawn {limits} {log} {rows} wanted i) token =
    let a = Invites-Tallied i token in
    let found =
      find-update token wanted (λ row. record row { revoked = true }) rows (λ row. refl) in
    elim (Bool-cases (wanted == token)) [
      | inl here ↦
          rw (found, here)
            (revoked-Agrees (find_invite token rows) (limit_of token limits) (times token log) a)
      | inr other ↦ rw (found, other) a
    ]

Agrees-some :
    (o : Option Invite) (n limit : ℕ)
    → Agrees o (some limit) n
    → (row : Invite) × (o ≡ some row) × (row.uses ≡ n) × (limit ≢ 0 → n ≤ limit)
Agrees-some none n limit a = absurd a
Agrees-some (some row) n limit (same, counted, within) = (row, refl, counted, within)

-- However invites are created, redeemed by anyone and revoked: an invite that was made with a limit
-- is redeemed successfully at most that many times in all, and the row of every invite that was
-- made counts exactly its successful redemptions. A limit of zero is none.
pub Invites-times :
    {hash : Bytes → ℕ} {limits : List (ℕ × ℕ)} {log : List ℕ} {rows : List Invite} (token limit : ℕ)
    → Invites hash limits log rows
    → limit_of token limits ≡ some limit
    → (row : Invite) × (find_invite token rows ≡ some row)
      × (row.uses ≡ times token log)
      × (limit ≢ 0 → times token log ≤ limit)
Invites-times {hash} {limits} {log} {rows} token limit i h =
    let a : Agrees (find_invite token rows) (limit_of token limits) (times token log) =
      Invites-Tallied i token in
    Agrees-some (find_invite token rows) _ limit (rw h at a)
