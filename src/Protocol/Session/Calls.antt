-- ===== src/Protocol/Session/Calls.antt =====
-- Any calls of the session manager in any order.
use hokora.Base.{ℕ, inl, inr, Option, [], arith, ltb, Bool-cases, Option-cases}
use hokora.Bytes.{Bytes}
use hokora.Protocol.Session.{
  SessionManager, SessionInit, is_valid_profile, handle_session_init, limit_or_zero, max_sync_limit,
  update_session, is_active_row, handle_profile_update, cleanup_expired_sessions,
}
use hokora.Protocol.Session.Store.{
  Session, Db, update_profile, touch, enqueue, flush_for_session, delete_expired, delete_items,
  get_session,
}
use hokora.Protocol.Session.OneActive.{
  OneActive, count_active, kept_OneActive, init_OneActive, count_kept,
}

update_session-OneActive :
    (db : Db) (row : Session) (profile now : ℕ)
    → OneActive db
    → OneActive (update_session db row profile now).1
unfolding update_session update_profile flush_for_session
update_session-OneActive db row profile now one =
    elim (Bool-cases (
      ltb (limit_or_zero (max_sync_limit row.sync_profile))
        (limit_or_zero (max_sync_limit profile)))) [
          | inl more ↦ rw more (
              kept_OneActive (record updated_db { items = _ }) kept row.session_id
                (λ r. record r { deferred_count = 0 }) (λ identity r x. x))
          | inr less ↦ rw less kept
        ]
  where
    updated_db : Db
    updated_db = update_profile db row.session_id profile now

    kept : OneActive (update_profile db row.session_id profile now)
    kept =
        kept_OneActive db one row.session_id
          (λ r. record r { sync_profile = profile; last_activity = now }) (λ identity r x. x)

profile_update_OneActive :
    (db : Db) (session_id profile now : ℕ)
    → OneActive db
    → OneActive (handle_profile_update db session_id profile now).1
unfolding handle_profile_update
profile_update_OneActive db session_id profile now one =
    elim (Bool-cases (is_valid_profile profile)) [
      | inr bad ↦ rw bad one
      | inl good ↦ elim (Option-cases (is_active_row (get_session db session_id))) [
        | inl gone ↦ rw (good, gone) one
        | inr (row, found) ↦ rw (good, found) (update_session-OneActive db row profile now one)
      ]
    ]

-- The calls that clients and the maintenance loop make.
pub data Calls (unwrap : ℕ → ℕ) : Db → Type 0 where
  empty : Calls unwrap (record { sessions = []; items = []; next_id = 1 })
  init :
      {db : Db} (s : SessionManager) (identity : ℕ) (payload : SessionInit) (session_id : ℕ)
      (token : Bytes) (now : ℕ)
      → Calls unwrap db
      → Calls unwrap (handle_session_init unwrap s db identity payload session_id token now).1
  updated :
      {db : Db} (session_id profile now : ℕ)
      → Calls unwrap db
      → Calls unwrap (handle_profile_update db session_id profile now).1
  queued :
      {db : Db} (session_id : ℕ) (channel : Option ℕ) (action payload priority : ℕ) (ttl : Option ℕ)
      (now : ℕ)
      → Calls unwrap db
      → Calls unwrap (enqueue db session_id channel action payload priority ttl now)
  touched :
      {db : Db} (session_id now : ℕ) → Calls unwrap db → Calls unwrap (touch db session_id now)
  cleaned :
      {db : Db} (s : SessionManager) (now : ℕ)
      → Calls unwrap db
      → Calls unwrap (cleanup_expired_sessions s db now).1

-- Whatever sessions are opened, resumed, updated and cleaned up, no identity ever has two active
-- sessions.
pub Calls-OneActive : {unwrap : ℕ → ℕ} {db : Db} → Calls unwrap db → OneActive db
unfolding cleanup_expired_sessions delete_expired delete_items enqueue touch
Calls-OneActive empty = λ identity. unfold count_active in omega arith
Calls-OneActive {unwrap} (init {db = db} s identity payload session_id token now calls) =
    init_OneActive unwrap s db identity payload session_id token now (Calls-OneActive calls)
Calls-OneActive (updated {db = db} session_id profile now calls) =
    profile_update_OneActive db session_id profile now (Calls-OneActive calls)
Calls-OneActive (queued session_id channel action payload priority ttl now calls) =
    Calls-OneActive calls
Calls-OneActive (touched {db = db} session_id now calls) =
    kept_OneActive db (Calls-OneActive calls) session_id (λ row. record row { last_activity = now })
      (λ identity row x. x)
Calls-OneActive (cleaned {db = db} s now calls) =
    let one = Calls-OneActive calls in
    λ identity. omega (arith, one identity, count_kept identity s.session_timeout now db.sessions)
