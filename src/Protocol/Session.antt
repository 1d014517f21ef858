-- ===== src/Protocol/Session.antt =====
-- src/hokora/protocol/session.py and the repositories of src/hokora/db/queries.py that it uses. The two
-- tables are lists of rows in the order of their insertion; random bytes and the clock are
-- arguments, and so is the decoding of a deferred payload. Timers of the event loop are left out.
pub mod Store
pub mod OneActive
pub mod Calls
pub mod Deferral
pub mod Sorting
pub mod Resume
mod Tests
use hokora.Base.{
  ℕ, ◌+◌, ◌≤◌, Bool, true, false, not, ◌&&◌, ◌||◌, Option, none, some, List, [], ◌∷◌, ◌++◌, leb,
  ltb, ◌==◌, length, map, if◌then◌else◌,
}
use hokora.Base.Keys.{◌≟◌, bytes_key, number_key}
use hokora.Bytes.{Bytes}
use hokora.Dict.{Dict, insert}
use hokora.Protocol.Session.Store.{
  Session, active, closed, DeferredSyncItem, Db, create_session, get_active_session, get_session,
  update_row, update_profile, update_state, flush_for_session, delete_expired, delete_items,
}

abbrev pub cdsp_version : ℕ
cdsp_version = 1

-- `CDSP_PROFILE_LIMITS[profile]["max_sync_limit"]`
unfoldable pub max_sync_limit : ℕ → Option ℕ
max_sync_limit profile =
    if profile == 1
    then some 100
    else if profile == 2
    then some 20
    else if profile == 3
    then some 5
    else if profile == 4
    then some 50
    else none

abbrev pub is_known : Option ℕ → Bool
is_known none = false
is_known (some limit) = true

-- `profile in _VALID_PROFILES`
abbrev pub is_valid_profile : ℕ → Bool
is_valid_profile profile = is_known (max_sync_limit profile)

abbrev pub limit_or_zero : Option ℕ → ℕ
limit_or_zero none = 0
limit_or_zero (some limit) = limit

-- A payload of Session Init; absent keys are `none`.
pub record SessionInit : Type 0 where
  pub client_version : Option ℕ
  pub wanted_profile : Option ℕ
  pub token : Option Bytes
  pub lxmf_destination : Option ℕ

abbrev pub or_default : Option ℕ → ℕ → ℕ
or_default none d = d
or_default (some n) d = n

-- What is sent of a deferred item.
pub record WireItem : Type 0 where
  pub wire_channel : Option ℕ
  pub wire_action : ℕ
  pub wire_payload : ℕ

-- `unwrap` is what msgpack makes of a payload that holds a live event.
unfoldable pub unwrap_deferred_item : (ℕ → ℕ) → DeferredSyncItem → WireItem
unwrap_deferred_item unwrap item = record {
  wire_channel = item.channel_id;
  wire_action = item.sync_action;
  wire_payload = unwrap item.payload;
}

pub data Answer : Type 0 where
  rejected : ℕ → Answer
  -- session id, profile, flushed items
  resumed : ℕ → ℕ → List WireItem → Answer
  -- session id, profile, resume token
  created : ℕ → ℕ → Bytes → Answer
  -- session id, profile, deferred count, flushed items
  updated : ℕ → ℕ → ℕ → List WireItem → Answer

pub record SessionManager : Type 0 where
  pub session_timeout : ℕ
  pub lxmf_destinations : Dict ℕ ℕ

unfoldable pub note_destination : SessionManager → ℕ → Option ℕ → SessionManager
note_destination s identity none = s
note_destination s identity (some destination) = record s {
  lxmf_destinations = insert identity destination s.lxmf_destinations;
}

-- The session that a non-empty token resumes: the identity's active one, if its token is that.
abbrev pub matching : Bytes → Option Session → Option Session
matching token none = none
matching token (some existing) = elim existing.resume_token [
  | none ↦ none
  | some held ↦ if held ≟ token then some existing else none
]

unfoldable pub resumable : Db → ℕ → Option Bytes → Option Session
resumable db identity none = none
resumable db identity (some []) = none
resumable db identity (some (b ∷ bs)) = matching (b ∷ bs) (get_active_session db identity)

unfoldable pub resume : (ℕ → ℕ) → Db → Session → ℕ → ℕ → Answer × Db
resume unwrap db existing profile now =
    let db' =
      update_row existing.session_id
        (λ row. record row { sync_profile = profile; last_activity = now }) db in
    let (flushed, db'') = flush_for_session db' existing.session_id in
    (
      resumed existing.session_id profile (map (unwrap_deferred_item unwrap) flushed),
      update_row existing.session_id (λ row. record row { deferred_count = 0 }) db'',
    )

unfoldable pub close_previous : Db → Option Session → ℕ → Db
close_previous db none now = db
close_previous db (some existing) now = update_state db existing.session_id closed now

unfoldable pub replace_session : SessionManager → Db → ℕ → ℕ → ℕ → ℕ → Bytes → ℕ → Answer × Db
replace_session s db identity profile version session_id token now =
    let db' = close_previous db (get_active_session db identity) now in
    (
      created session_id profile token,
      create_session db' session_id identity profile version token (now + s.session_timeout) now,
    )

-- `session_id` and `token` are the random bytes that a new session draws.
unfoldable pub handle_session_init :
    (ℕ → ℕ) → SessionManager → Db → ℕ → SessionInit → ℕ → Bytes → ℕ → Answer × Db × SessionManager
handle_session_init unwrap s db identity payload session_id token now =
    let version = or_default payload.client_version 1 in
    let profile = or_default payload.wanted_profile 1 in
    let s' = note_destination s identity payload.lxmf_destination in
    if ltb cdsp_version version
    then (rejected 1, db, s')
    else if not (is_valid_profile profile)
    then (rejected 2, db, s')
    else elim (resumable db identity payload.token) [
      | some existing ↦
          (let (answer, db') = resume unwrap db existing profile now in (answer, db', s'))
      | none ↦
          (let (answer, db') =
              replace_session s' db identity profile version session_id token now in
            (answer, db', s'))
    ]

unfoldable pub plain_item : DeferredSyncItem → WireItem
plain_item item = record {
  wire_channel = item.channel_id;
  wire_action = item.sync_action;
  wire_payload = item.payload;
}

-- The items are flushed where the new profile allows more than the old one.
unfoldable pub update_session : Db → Session → ℕ → ℕ → Answer × Db
update_session db row profile now =
    let db' = update_profile db row.session_id profile now in
    let (flushed, db'') = flush_for_session db' row.session_id in
    if ltb (limit_or_zero (max_sync_limit row.sync_profile))
      (limit_or_zero (max_sync_limit profile))
    then (
      updated row.session_id profile 0 (map plain_item flushed),
      update_row row.session_id (λ r. record r { deferred_count = 0 }) db'',
    )
    else (updated row.session_id profile row.deferred_count [], db')

abbrev pub is_active_row : Option Session → Option Session
is_active_row none = none
is_active_row (some row) = elim row.state [ active ↦ some row | closed ↦ none ]

unfoldable pub handle_profile_update : Db → ℕ → ℕ → ℕ → Answer × Db
handle_profile_update db session_id profile now =
    if not (is_valid_profile profile)
    then (rejected 2, db)
    else elim (is_active_row (get_session db session_id)) [
      | none ↦ (rejected 3, db)
      | some row ↦ update_session db row profile now
    ]

unfoldable pub cleanup_expired_sessions : SessionManager → Db → ℕ → ℕ × Db
cleanup_expired_sessions s db now =
    let (count, db') = delete_expired db s.session_timeout now in (count, delete_items db' now)
