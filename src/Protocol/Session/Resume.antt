-- ===== src/Protocol/Session/Resume.antt =====
-- What a resumed session gets back.
use hokora.Base.{
  ℕ, ◌≤◌, ◌≡◌, refl, ap, ◌∙◌, true, false, Option, none, some, List, ◌∷◌, arith, ltb, length, map,
  if◌then◌else◌, In,
}
use hokora.Base.Keys.{◌≟◌, ≟-refl, bytes_key}
use hokora.Bytes.{Bytes}
use hokora.Protocol.Session.{
  SessionManager, SessionInit, resumed, unwrap_deferred_item, is_valid_profile, cdsp_version,
  or_default, matching, resumable, resume, handle_session_init,
}
use hokora.Protocol.Session.Store.{
  Session, DeferredSyncItem, Db, items_of, flush_for_session, get_active_session, update_row,
}
use hokora.Protocol.Session.Sorting.{
  IsOrdered, sort-IsOrdered, In-sort, length-sort, In-items_of, items_of-In,
}

-- What the answer of a resumption holds, and what is left in the table of items.
pub record GetsAll (before : List DeferredSyncItem) (session_id : ℕ)
    (flushed : List DeferredSyncItem) : Type 0 where
  pub ordered : IsOrdered flushed
  pub complete : (x : DeferredSyncItem) → In x before → x.owner ≡ session_id → In x flushed
  pub sound : (x : DeferredSyncItem) → In x flushed → In x before × (x.owner ≡ session_id)
  pub once : length flushed ≡ length (items_of session_id true before)

flush-GetsAll :
    (db : Db) (session_id : ℕ) → GetsAll db.items session_id (flush_for_session db session_id).0
unfolding flush_for_session
flush-GetsAll db session_id = record {
  ordered = sort-IsOrdered (items_of session_id true db.items);
  complete = λ x i mine.
      (In-sort x (items_of session_id true db.items)).0 (In-items_of session_id x db.items i mine);
  sound = λ x i.
      items_of-In session_id x db.items ((In-sort x (items_of session_id true db.items)).1 i);
  once = length-sort (items_of session_id true db.items);
}

matches :
    (db : Db) (identity : ℕ) (existing : Session) (b : ℕ) (bs : Bytes)
    → get_active_session db identity ≡ some existing
    → existing.resume_token ≡ some (b ∷ bs)
    → resumable db identity (some (b ∷ bs)) ≡ some existing
unfolding resumable
matches db identity existing b bs found held =
    ap (matching (b ∷ bs)) found
    ∙ ap
        (λ (o : Option Bytes). elim o [
          | none ↦ none
          | some t ↦ if t ≟ (b ∷ bs) then some existing else none
        ])
        held
    ∙ ap (λ t. if t then some existing else none) (≟-refl (b ∷ bs))

-- A client that names the token of its active session, which is not empty, with a known version
-- and a valid profile, resumes it: the answer holds each of the session's deferred items, once,
-- in the order of the flush, and nothing else, and the table keeps the items of all other
-- sessions and no more.
pub handle_session_init_resumes :
    (unwrap : ℕ → ℕ) (s : SessionManager) (db : Db) (identity : ℕ) (payload : SessionInit)
    (session_id : ℕ) (fresh : Bytes) (now : ℕ) (existing : Session) (b : ℕ) (bs : Bytes)
    → or_default payload.client_version 1 ≤ cdsp_version
    → is_valid_profile (or_default payload.wanted_profile 1) ≡ true
    → payload.token ≡ some (b ∷ bs)
    → get_active_session db identity ≡ some existing
    → existing.resume_token ≡ some (b ∷ bs)
    → let (answer, db', s') =
        handle_session_init unwrap s db identity payload session_id fresh now in
      (flushed : List DeferredSyncItem) × (answer
        ≡ resumed existing.session_id
            (or_default payload.wanted_profile 1)
            (map (unwrap_deferred_item unwrap) flushed))
      × GetsAll db.items existing.session_id flushed
      × (db'.items ≡ items_of existing.session_id false db.items)
unfolding handle_session_init resume update_row
handle_session_init_resumes unwrap s db identity payload session_id fresh now existing b bs known
      valid named found held =
    let same : resumable db identity payload.token ≡ some existing =
      ap (resumable db identity) named ∙ matches db identity existing b bs found held in
    let old : ltb cdsp_version (or_default payload.client_version 1) ≡ false = ground arith in
    rw (old, valid, same)
      (
        (flush_for_session db existing.session_id).0,
        unfold flush_for_session in refl,
        flush-GetsAll db existing.session_id,
        unfold flush_for_session in refl,
      )
