-- ===== src/Protocol/Session/Store.antt =====
-- src/hokora/db/queries.py, `SessionRepo` and `DeferredSyncItemRepo`, over src/hokora/db/models.py's rows.
use hokora.Base.{
  ℕ, ◌+◌, ◌-◌, Bool, true, false, ◌&&◌, ◌||◌, Option, none, some, List, [], ◌∷◌, ◌++◌, leb, ltb,
  ◌==◌, length, if◌then◌else◌,
}
use hokora.Bytes.{Bytes}

-- The states that the code writes.
pub data SessionState : Type 0 where
  active closed : SessionState

pub record Session : Type 0 where
  pub session_id : ℕ
  pub identity_hash : ℕ
  pub sync_profile : ℕ
  pub version : ℕ
  pub state : SessionState
  pub resume_token : Option Bytes
  pub deferred_count : ℕ
  pub last_activity : ℕ
  pub expires_at : Option ℕ

pub record DeferredSyncItem : Type 0 where
  pub id : ℕ
  pub owner : ℕ
  pub channel_id : Option ℕ
  pub sync_action : ℕ
  pub payload : ℕ
  pub priority : ℕ
  pub created_at : ℕ
  pub item_expires_at : Option ℕ

pub record Db : Type 0 where
  pub sessions : List Session
  pub items : List DeferredSyncItem
  pub next_id : ℕ

unfoldable pub create_session : Db → ℕ → ℕ → ℕ → ℕ → Bytes → ℕ → ℕ → Db
create_session db session_id identity profile version token expires_at now = record db {
  sessions =
      db.sessions
      ++ (record {
        session_id = session_id;
        identity_hash = identity;
        sync_profile = profile;
        version = version;
        state = active;
        resume_token = some token;
        deferred_count = 0;
        last_activity = now;
        expires_at = some expires_at;
      })
        ∷ [];
}

unfoldable pub find_session : ℕ → List Session → Option Session
find_session session_id [] = none
find_session session_id (row ∷ rows) =
    if row.session_id == session_id then some row else find_session session_id rows

unfoldable pub get_session : Db → ℕ → Option Session
get_session db session_id = find_session session_id db.sessions

abbrev pub in_state : SessionState → Bool
in_state active = true
in_state closed = false

abbrev pub is_active_of : ℕ → Session → Bool
is_active_of identity row = (row.identity_hash == identity) && in_state row.state

-- Of two rows the one with the later activity, the first one of equals.
abbrev pub later : Session → Option Session → Session
later row none = row
later row (some other) = if ltb row.last_activity other.last_activity then other else row

-- `ORDER BY last_activity DESC LIMIT 1`
unfoldable pub latest_active : ℕ → List Session → Option Session
latest_active identity [] = none
latest_active identity (row ∷ rows) =
    let rest = latest_active identity rows in
    if is_active_of identity row then some (later row rest) else rest

unfoldable pub get_active_session : Db → ℕ → Option Session
get_active_session db identity = latest_active identity db.sessions

-- `session_id` is the primary key.
unfoldable pub update_rows : ℕ → (Session → Session) → List Session → List Session
update_rows session_id change [] = []
update_rows session_id change (row ∷ rows) =
    (if row.session_id == session_id then change row else row) ∷ update_rows session_id change rows

unfoldable pub update_row : ℕ → (Session → Session) → Db → Db
update_row session_id change db = record db { sessions = update_rows session_id change db.sessions }

unfoldable pub update_profile : Db → ℕ → ℕ → ℕ → Db
update_profile db session_id profile now =
    update_row session_id (λ row. record row { sync_profile = profile; last_activity = now }) db

unfoldable pub update_state : Db → ℕ → SessionState → ℕ → Db
update_state db session_id state now =
    update_row session_id (λ row. record row { state = state; last_activity = now }) db

unfoldable pub touch : Db → ℕ → ℕ → Db
touch db session_id now = update_row session_id (λ row. record row { last_activity = now }) db

abbrev pub is_past : Option ℕ → ℕ → Bool
is_past none now = false
is_past (some t) now = ltb t now

-- `last_activity < now - max_age or expires_at < now`
abbrev pub has_expired : ℕ → ℕ → Session → Bool
has_expired max_age now row = ltb (row.last_activity + max_age) now || is_past row.expires_at now

unfoldable pub kept_rows : ℕ → ℕ → List Session → List Session
kept_rows max_age now [] = []
kept_rows max_age now (row ∷ rows) =
    let rest = kept_rows max_age now rows in
    if has_expired max_age now row then rest else row ∷ rest

-- Whether an item's session is among some rows.
abbrev pub has_owner : List Session → DeferredSyncItem → Bool
has_owner rows x = elim (find_session x.owner rows) [ none ↦ false | some row ↦ true ]

unfoldable pub owned : List Session → List DeferredSyncItem → List DeferredSyncItem
owned rows [] = []
owned rows (x ∷ xs) = let rest = owned rows xs in if has_owner rows x then x ∷ rest else rest

-- A deleted session takes its items with it: the foreign key cascades.
unfoldable pub delete_expired : Db → ℕ → ℕ → ℕ × Db
delete_expired db max_age now =
    let kept = kept_rows max_age now db.sessions in
    (length db.sessions - length kept, record db { sessions = kept; items = owned kept db.items })

unfoldable pub enqueue : Db → ℕ → Option ℕ → ℕ → ℕ → ℕ → Option ℕ → ℕ → Db
enqueue db session_id channel action payload priority ttl now = record db {
  items =
      db.items
      ++ (record {
        id = db.next_id;
        owner = session_id;
        channel_id = channel;
        sync_action = action;
        payload = payload;
        priority = priority;
        created_at = now;
        item_expires_at = ttl;
      })
        ∷ [];
  next_id = db.next_id + 1;
}

-- `ORDER BY priority DESC, created_at ASC`; equal rows keep their order.
abbrev pub precedes : DeferredSyncItem → DeferredSyncItem → Bool
precedes a b =
    ltb b.priority a.priority || ((a.priority == b.priority) && leb a.created_at b.created_at)

unfoldable pub insert_item : DeferredSyncItem → List DeferredSyncItem → List DeferredSyncItem
insert_item x [] = x ∷ []
insert_item x (y ∷ ys) =
    let rest = insert_item x ys in if precedes x y then x ∷ (y ∷ ys) else y ∷ rest

unfoldable pub sort_items : List DeferredSyncItem → List DeferredSyncItem
sort_items [] = []
sort_items (x ∷ xs) = insert_item x (sort_items xs)

unfoldable pub items_of : ℕ → Bool → List DeferredSyncItem → List DeferredSyncItem
items_of session_id wanted [] = []
items_of session_id wanted (x ∷ xs) =
    let rest = items_of session_id wanted xs in
    if wanted
    then (if x.owner == session_id then x ∷ rest else rest)
    else (if x.owner == session_id then rest else x ∷ rest)

-- The new profile is a parameter that the code does not use.
unfoldable pub flush_for_session : Db → ℕ → List DeferredSyncItem × Db
flush_for_session db session_id = (
  sort_items (items_of session_id true db.items),
  record db { items = items_of session_id false db.items },
)

unfoldable pub count_for_session : Db → ℕ → ℕ
count_for_session db session_id = length (items_of session_id true db.items)

unfoldable pub unexpired : ℕ → List DeferredSyncItem → List DeferredSyncItem
unexpired now [] = []
unexpired now (x ∷ xs) =
    let rest = unexpired now xs in if is_past x.item_expires_at now then rest else x ∷ rest

unfoldable pub delete_items : Db → ℕ → Db
delete_items db now = record db { items = unexpired now db.items }
