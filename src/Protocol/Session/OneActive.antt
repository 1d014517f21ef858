-- ===== src/Protocol/Session/OneActive.antt =====
-- An identity never has two active sessions.
use mathlib.Core.Path.{subst}
use hokora.Base.{
  ℕ, ◌+◌, ◌≤◌, ◌≡◌, ◌⊎◌, refl, sym, ap, ◌∙◌, inl, inr, true, false, Option, none, some, List, [],
  ◌∷◌, ◌++◌, arith, ltb, ◌==◌, ==_iff, Bool-cases, Option-cases, if◌then◌else◌, In, here, there,
}
use hokora.Bytes.{Bytes}
use hokora.Protocol.Session.{
  SessionManager, SessionInit, is_valid_profile, cdsp_version, or_default, resumable, resume,
  close_previous, replace_session, handle_session_init,
}
use hokora.Protocol.Session.Store.{
  Session, closed, Db, is_active_of, later, latest_active, get_active_session, update_rows,
  update_row, update_state, create_session, kept_rows, flush_for_session,
}

unfoldable pub count_active : ℕ → List Session → ℕ
count_active identity [] = 0
count_active identity (row ∷ rows) =
    (if is_active_of identity row then 1 else 0) + count_active identity rows

abbrev pub OneActive : Db → Type 0
OneActive db = (identity : ℕ) → count_active identity db.sessions ≤ 1

latest_active-none :
    (identity : ℕ) (rows : List Session)
    → latest_active identity rows ≡ none
    → count_active identity rows ≡ 0
unfolding latest_active count_active
latest_active-none identity [] h = refl
latest_active-none identity (row ∷ rows) h = ground (arith, latest_active-none identity rows)

later_is : (row : Session) (o : Option Session) → (later row o ≡ row) ⊎ (o ≡ some (later row o))
later_is row none = inl refl
later_is row (some other) = elim (Bool-cases (ltb row.last_activity other.last_activity)) [
  | inl e ↦ rw e (inr refl)
  | inr e ↦ rw e (inl refl)
]

-- The session that a lookup finds is one of the identity's active ones.
latest_active-some :
    (identity : ℕ) (rows : List Session) (e : Session)
    → latest_active identity rows ≡ some e
    → In e rows × (is_active_of identity e ≡ true)
unfolding latest_active
latest_active-some identity [] e h = absurd (ground arith)
latest_active-some identity (row ∷ rows) e h = elim (Bool-cases (is_active_of identity row)) [
  | inl mine ↦ elim (later_is row (latest_active identity rows)) [
    | inl this ↦
        (let same : row ≡ e = sym this ∙ found mine in
          (
            subst (λ r. In r (row ∷ rows)) same here,
            subst (λ r. is_active_of identity r ≡ true) same mine,
          ))
    | inr rest ↦
        (let (i, a) = latest_active-some identity rows e (rest ∙ ap some (found mine)) in
          (there i, a))
  ]
  | inr other ↦ (let (i, a) = latest_active-some identity rows e (not_found other) in (there i, a))
]
  where
    found : is_active_of identity row ≡ true → later row (latest_active identity rows) ≡ e
    found mine = ground arith

    not_found : is_active_of identity row ≡ false → latest_active identity rows ≡ some e
    not_found other = ground arith

-- A change of rows that makes none of them active, or keeps each as it is.
module _ (change : Session → Session) (session_id : ℕ) where
  update_rows_le :
      (identity : ℕ) (rows : List Session)
      → ((row : Session)
          → is_active_of identity (change row) ≡ true
          → is_active_of identity row ≡ true)
      → count_active identity (update_rows session_id change rows) ≤ count_active identity rows
  unfolding update_rows count_active
  update_rows_le identity [] h = omega arith
  update_rows_le identity (row ∷ rows) h = ground (arith, h row, update_rows_le identity rows h)

  update_rows_lt :
      (identity : ℕ) (rows : List Session) (e : Session)
      → ((row : Session) → is_active_of identity (change row) ≡ false)
      → In e rows
      → is_active_of identity e ≡ true
      → e.session_id ≡ session_id
      → count_active identity (update_rows session_id change rows) + 1 ≤ count_active identity rows
  unfolding update_rows count_active
  update_rows_lt identity [] e h i a same = elim i [ ]
  update_rows_lt identity (row ∷ rows) e h here a same =
      ground (arith, h row, update_rows_le identity rows (λ r x. absurd (ground (arith, h r))))
  update_rows_lt identity (row ∷ rows) e h (there i) a same =
      ground (arith, h row, update_rows_lt identity rows e h i a same)

count_append :
    (identity : ℕ) (rows : List Session) (row : Session)
    → count_active identity (rows ++ row ∷ [])
      ≡ count_active identity rows + (if is_active_of identity row then 1 else 0)
unfolding count_active
count_append identity [] row = omega arith
count_append identity (r ∷ rows) row = omega (arith, count_append identity rows row)

count_new :
    (identity other : ℕ) (rows : List Session) (row : Session)
    → row.identity_hash ≡ identity
    → count_active identity rows ≡ 0
    → count_active other rows ≤ 1
    → count_active other (rows ++ row ∷ []) ≤ 1
count_new identity other rows row mine none_left within = elim (Bool-cases (identity == other)) [
  | inl same ↦
      (let e : count_active other rows ≡ 0 =
          subst (λ i. count_active i rows ≡ 0) ((==_iff identity other).0 same) none_left in
        ground (arith, e, count_append other rows row))
  | inr apart ↦ ground (arith, count_append other rows row, ==_iff row.identity_hash other)
]

pub count_kept :
    (identity max_age now : ℕ) (rows : List Session)
    → count_active identity (kept_rows max_age now rows) ≤ count_active identity rows
unfolding count_active kept_rows
count_kept identity max_age now [] = omega arith
count_kept identity max_age now (row ∷ rows) = ground (arith, count_kept identity max_age now rows)

module _ (db : Db) (one : OneActive db) where
  -- After the previous session is closed, the identity has none.
  closed_counts :
      (identity now other : ℕ)
      → let db' = close_previous db (get_active_session db identity) now in
        (count_active identity db'.sessions ≡ 0) × (count_active other db'.sessions ≤ 1)
  unfolding close_previous get_active_session update_state update_row
  closed_counts identity now other = elim (Option-cases (latest_active identity db.sessions)) [
    | inl none_there ↦ rw none_there (latest_active-none identity db.sessions none_there, one other)
    | inr (e, found) ↦
        (let (i, a) = latest_active-some identity db.sessions e found in
          let change : Session → Session =
            λ row. record row { state = closed; last_activity = now } in
          rw found (
            omega (
              arith,
              update_rows_lt change e.session_id identity db.sessions e (λ row. ground arith) i a
                  refl,
              one identity,
            ),
            omega (
              arith,
              update_rows_le change e.session_id other db.sessions (λ row x. absurd (ground arith)),
              one other,
            ),
          ))
  ]

  created_OneActive :
      (identity profile version session_id token_expires now : ℕ) (token : Bytes)
      → OneActive (
          create_session
            (close_previous db (get_active_session db identity) now)
            session_id
            identity
            profile
            version
            token
            token_expires
            now)
  unfolding create_session
  created_OneActive identity profile version session_id token_expires now token other =
      let (none_left, within) = closed_counts identity now other in
      count_new identity other (close_previous db (get_active_session db identity) now).sessions _
        refl none_left within

  pub kept_OneActive :
      (session_id : ℕ) (change : Session → Session)
      → ((identity : ℕ) (row : Session)
          → is_active_of identity (change row) ≡ true
          → is_active_of identity row ≡ true)
      → OneActive (update_row session_id change db)
  unfolding update_row
  kept_OneActive session_id change h identity =
      omega
        (arith, update_rows_le change session_id identity db.sessions (h identity), one identity)

flush_sessions :
    (db : Db) (session_id : ℕ) → (flush_for_session db session_id).1.sessions ≡ db.sessions
unfolding flush_for_session
flush_sessions db session_id = refl

resume-OneActive :
    (unwrap : ℕ → ℕ) (db : Db) (existing : Session) (profile now : ℕ)
    → OneActive db
    → OneActive (resume unwrap db existing profile now).1
unfolding resume flush_for_session
resume-OneActive unwrap db existing profile now one =
    kept_OneActive (record first { items = _ })
      (kept_OneActive db one existing.session_id
        (λ row. record row { sync_profile = profile; last_activity = now }) (λ identity row x. x))
      existing.session_id (λ row. record row { deferred_count = 0 }) (λ identity row x. x)
  where
    first : Db
    first =
        update_row existing.session_id
          (λ row. record row { sync_profile = profile; last_activity = now }) db

pub init_OneActive :
    (unwrap : ℕ → ℕ) (s : SessionManager) (db : Db) (identity : ℕ) (payload : SessionInit)
    (session_id : ℕ) (token : Bytes) (now : ℕ)
    → OneActive db
    → OneActive (handle_session_init unwrap s db identity payload session_id token now).1
unfolding handle_session_init replace_session
init_OneActive unwrap s db identity payload session_id token now one =
    elim (Bool-cases (ltb cdsp_version (or_default payload.client_version 1))) [
      | inl e ↦ rw e one
      | inr e ↦ elim (Bool-cases (is_valid_profile (or_default payload.wanted_profile 1))) [
        | inr bad ↦ rw (e, bad) one
        | inl good ↦ elim (Option-cases (resumable db identity payload.token)) [
          | inl fresh ↦
              rw (e, good, fresh) (created_OneActive db one identity _ _ session_id _ now token)
          | inr (existing, found) ↦
              rw (e, good, found) (resume-OneActive unwrap db existing _ now one)
        ]
      ]
    ]
