-- ===== src/Db/Identities.antt =====
-- IdentityRepo and AuditLogRepo.log of src/hokora/db/queries.py.
use hokora.Base.{
  ℕ, Bool, false, Option, none, some, String, List, [], ◌∷◌, ◌++◌, ◌==◌, if◌then◌else◌,
}
use hokora.Db.{Identity, Tables}

unfoldable pub find_identity : ℕ → List Identity → Option Identity
find_identity wanted [] = none
find_identity wanted (row ∷ rows) =
    if row.hash == wanted then some row else find_identity wanted rows

unfoldable pub get_by_hash : Tables → ℕ → Option Identity
unfolding find_identity
get_by_hash t identity = find_identity identity t.identities

abbrev pub flag : Option Identity → Bool
flag none = false
flag (some row) = row.blocked

unfoldable pub is_blocked : Tables → ℕ → Bool
unfolding get_by_hash
is_blocked t identity = flag (get_by_hash t identity)

-- The row of a hash with its fields set, made of `blank` where there is none.
unfoldable pub upsert_identity :
    ℕ → (Identity → Identity) → Identity → ℕ → List Identity → List Identity
upsert_identity identity fields blank now [] = fields blank ∷ []
upsert_identity identity fields blank now (row ∷ rows) =
    let rest = upsert_identity identity fields blank now rows in
    if row.hash == identity then record (fields row) { last_seen = now } ∷ rows else row ∷ rest

-- The defaults of a new row.
abbrev pub blank_identity : ℕ → ℕ → Identity
blank_identity identity now = record {
  hash = identity;
  public_key = none;
  last_seen = now;
  blocked = false;
  blocked_at = none;
  blocked_by = none;
}

unfoldable pub upsert : Tables → ℕ → (Identity → Identity) → ℕ → Tables
unfolding upsert_identity
upsert t identity fields now = record t {
  identities = upsert_identity identity fields (blank_identity identity now) now t.identities;
}

unfoldable pub log : Tables → ℕ → String → ℕ → Option ℕ → Tables
log t actor action_type target channel = record t {
  audit =
      t.audit
      ++ (record {
        actor = actor;
        action_type = action_type;
        target = target;
        channel_id = channel;
      })
        ∷ [];
}
