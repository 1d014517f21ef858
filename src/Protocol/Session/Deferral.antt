-- ===== src/Protocol/Session/Deferral.antt =====
-- src/hokora/protocol/sync_utils.py, `defer_sync_item`, and `evict_oldest` of src/hokora/db/queries.py:
-- the deferred queue of a session and its limit.
use hokora.Base.{
  ℕ, suc, ◌+◌, ◌-◌, ◌≤◌, ◌<◌, ◌≡◌, refl, ap, ◌∙◌, inl, inr, Bool, true, false, not, ◌&&◌, ◌||◌,
  Option, none, some, List, [], ◌∷◌, ◌++◌, arith, leb, ◌==◌, length, length-take, take, Bool-cases,
  if◌then◌else◌,
}
use hokora.Protocol.Session.Store.{
  Session, DeferredSyncItem, Db, get_active_session, update_row, enqueue, items_of,
  count_for_session,
}

-- `ORDER BY created_at DESC`; equal rows keep their order.
unfoldable pub insert_newest : DeferredSyncItem → List DeferredSyncItem → List DeferredSyncItem
insert_newest x [] = x ∷ []
insert_newest x (y ∷ ys) =
    let rest = insert_newest x ys in
    if leb y.created_at x.created_at then x ∷ (y ∷ ys) else y ∷ rest

unfoldable pub newest_first : List DeferredSyncItem → List DeferredSyncItem
newest_first [] = []
newest_first (x ∷ xs) = insert_newest x (newest_first xs)

abbrev pub ids_of : List DeferredSyncItem → List ℕ
ids_of [] = []
ids_of (x ∷ xs) = x.id ∷ ids_of xs

abbrev pub member : ℕ → List ℕ → Bool
member n [] = false
member n (m ∷ ms) = (n == m) || member n ms

-- The rows that are not both the session's and outside `keep_ids`.
unfoldable pub without_evicted : ℕ → List ℕ → List DeferredSyncItem → List DeferredSyncItem
without_evicted session_id keep_ids [] = []
without_evicted session_id keep_ids (x ∷ xs) =
    let rest = without_evicted session_id keep_ids xs in
    if (x.owner == session_id) && not (member x.id keep_ids) then rest else x ∷ rest

abbrev pub evict_but : Db → ℕ → List ℕ → Db
evict_but db session_id [] = db
evict_but db session_id (k ∷ ks) = record db {
  items = without_evicted session_id (k ∷ ks) db.items;
}

unfoldable pub evict_oldest : Db → ℕ → ℕ → Db
evict_oldest db session_id keep_limit =
    evict_but db session_id
      (ids_of (take keep_limit (newest_first (items_of session_id true db.items))))

unfoldable pub defer_for : Db → Session → Option ℕ → ℕ → ℕ → ℕ → ℕ → Db
defer_for db sess channel action payload limit now =
    let room =
      if leb limit (count_for_session db sess.session_id)
      then evict_oldest db sess.session_id (limit - 1)
      else db in
    let db' = enqueue room sess.session_id channel action payload 0 sess.expires_at now in
    update_row sess.session_id
      (λ row. record row { deferred_count = count_for_session db' sess.session_id }) db'

-- Without an active session nothing is queued.
unfoldable pub defer_sync_item : Db → ℕ → Option ℕ → ℕ → ℕ → ℕ → ℕ → Db
defer_sync_item db identity channel action payload limit now =
    elim (get_active_session db identity) [
      | none ↦ db
      | some sess ↦ defer_for db sess channel action payload limit now
    ]

-- How many rows have an id.
abbrev pub count_id : ℕ → List DeferredSyncItem → ℕ
count_id n [] = 0
count_id n (x ∷ xs) = (if x.id == n then 1 else 0) + count_id n xs

-- Ids are a primary key.
abbrev pub IdsDiffer : List DeferredSyncItem → Type 0
IdsDiffer xs = (n : ℕ) → count_id n xs ≤ 1

-- The session's rows whose ids are among some.
abbrev chosen : ℕ → List ℕ → List DeferredSyncItem → ℕ
chosen session_id ks [] = 0
chosen session_id ks (x ∷ xs) =
    (if (x.owner == session_id) && member x.id ks then 1 else 0) + chosen session_id ks xs

chosen_none : (session_id : ℕ) (xs : List DeferredSyncItem) → chosen session_id [] xs ≡ 0
chosen_none session_id [] = refl
chosen_none session_id (x ∷ xs) = ground (arith, chosen_none session_id xs)

chosen_more :
    (session_id k : ℕ) (ks : List ℕ) (xs : List DeferredSyncItem)
    → chosen session_id (k ∷ ks) xs ≤ count_id k xs + chosen session_id ks xs
chosen_more session_id k ks [] = omega arith
chosen_more session_id k ks (x ∷ xs) = ground (arith, chosen_more session_id k ks xs)

-- Of rows with different ids no more are chosen than ids are given.
chosen_le :
    (session_id : ℕ) (ks : List ℕ) (xs : List DeferredSyncItem)
    → IdsDiffer xs
    → chosen session_id ks xs ≤ length ks
chosen_le session_id [] xs d = omega (arith, chosen_none session_id xs)
chosen_le session_id (k ∷ ks) xs d =
    omega (arith, chosen_more session_id k ks xs, d k, chosen_le session_id ks xs d)

left_after :
    (session_id : ℕ) (ks : List ℕ) (xs : List DeferredSyncItem)
    → length (items_of session_id true (without_evicted session_id ks xs)) ≡ chosen session_id ks xs
unfolding items_of without_evicted
left_after session_id ks [] = refl
left_after session_id ks (x ∷ xs) = ground (arith, left_after session_id ks xs)

length-ids_of : (xs : List DeferredSyncItem) → length (ids_of xs) ≡ length xs
length-ids_of [] = refl
length-ids_of (x ∷ xs) = ap suc (length-ids_of xs)

length-insert_newest :
    (x : DeferredSyncItem) (ys : List DeferredSyncItem)
    → length (insert_newest x ys) ≡ suc (length ys)
unfolding insert_newest
length-insert_newest x [] = refl
length-insert_newest x (y ∷ ys) = ground (arith, length-insert_newest x ys)

length-newest_first : (xs : List DeferredSyncItem) → length (newest_first xs) ≡ length xs
unfolding newest_first
length-newest_first [] = refl
length-newest_first (x ∷ xs) =
    length-insert_newest x (newest_first xs) ∙ ap suc (length-newest_first xs)

evicted_within :
    (db : Db) (session_id : ℕ) (ks : List ℕ)
    → IdsDiffer db.items
    → 1 ≤ length ks
    → count_for_session (evict_but db session_id ks) session_id ≤ length ks
unfolding count_for_session
evicted_within db session_id [] d h = absurd (omega arith)
evicted_within db session_id (k ∷ ks) d h =
    omega (arith, left_after session_id (k ∷ ks) db.items, chosen_le session_id (k ∷ ks) db.items d)

count-append :
    (session_id : ℕ) (xs : List DeferredSyncItem) (x : DeferredSyncItem)
    → x.owner ≡ session_id
    → length (items_of session_id true (xs ++ x ∷ [])) ≡ length (items_of session_id true xs) + 1
unfolding items_of
count-append session_id [] x mine = ground arith
count-append session_id (y ∷ ys) x mine = ground (arith, count-append session_id ys x mine)

-- The count after a deferral is one more than what the eviction leaves.
deferred_count_lem :
    (db room : Db) (sess : Session) (channel : Option ℕ) (action payload limit now : ℕ)
    → (if leb limit (count_for_session db sess.session_id)
        then evict_oldest db sess.session_id (limit - 1)
        else db)
      ≡ room
    → count_for_session (defer_for db sess channel action payload limit now) sess.session_id
      ≡ count_for_session room sess.session_id + 1
unfolding defer_for count_for_session update_row enqueue
deferred_count_lem db room sess channel action payload limit now same =
    count-append sess.session_id _ _ refl
    ∙ ap (λ (d : Db). length (items_of sess.session_id true d.items) + 1) same

room_left :
    (db : Db) (session_id limit : ℕ)
    → IdsDiffer db.items
    → 2 ≤ limit
    → count_for_session
        (if leb limit (count_for_session db session_id)
          then evict_oldest db session_id (limit - 1)
          else db)
        session_id
      < limit
room_left db session_id limit d two =
    elim (Bool-cases (leb limit (count_for_session db session_id))) [
      | inl full ↦ rw full (evicted full)
      | inr free ↦ rw free (ground arith)
    ]
  where
    rows : List DeferredSyncItem
    rows = newest_first (items_of session_id true db.items)

    ids_size :
        leb limit (count_for_session db session_id) ≡ true
        → length (ids_of (take (limit - 1) rows)) ≡ limit - 1
    ids_size full =
        unfold count_for_session in
        ground (
          arith,
          length-ids_of (take (limit - 1) rows),
          length-take (limit - 1) rows,
          length-newest_first (items_of session_id true db.items),
        )

    evicted :
        leb limit (count_for_session db session_id) ≡ true
        → count_for_session (evict_oldest db session_id (limit - 1)) session_id < limit
    evicted full =
        let size : length (ids_of (take (limit - 1) rows)) ≡ limit - 1 = ids_size full in
        unfold evict_oldest in
        omega (
          arith,
          size,
          evicted_within db session_id (ids_of (take (limit - 1) rows)) d
              (omega (arith, size, two)),
        )

defer_sync_item_active :
    (db : Db) (identity : ℕ) (sess : Session) (channel : Option ℕ) (action payload limit now : ℕ)
    → get_active_session db identity ≡ some sess
    → defer_sync_item db identity channel action payload limit now
      ≡ defer_for db sess channel action payload limit now
unfolding defer_sync_item
defer_sync_item_active db identity sess channel action payload limit now found =
    ap
      (λ (o : Option Session). elim o [
        | none ↦ db
        | some row ↦ defer_for db row channel action payload limit now
      ])
      found

-- The deferred queue of a session never grows past a limit of two or more: after a deferral for an
-- identity's active session it is within the limit, if the rows of the table have different ids.
pub defer_sync_item_bounded :
    (db : Db) (identity : ℕ) (sess : Session) (channel : Option ℕ) (action payload limit now : ℕ)
    → get_active_session db identity ≡ some sess
    → IdsDiffer db.items
    → 2 ≤ limit
    → count_for_session
        (defer_sync_item db identity channel action payload limit now)
        sess.session_id
      ≤ limit
defer_sync_item_bounded db identity sess channel action payload limit now found d two =
    let count = deferred_count_lem db _ sess channel action payload limit now refl in
    rw (defer_sync_item_active db identity sess channel action payload limit now found)
      (omega (arith, count, room_left db sess.session_id limit d two))

-- A limit of one is not kept: every deferral for an active session makes its queue longer by one,
-- however long it is.
pub limit_of_one_is_not_kept :
    (db : Db) (identity : ℕ) (sess : Session) (channel : Option ℕ) (action payload now : ℕ)
    → get_active_session db identity ≡ some sess
    → count_for_session (defer_sync_item db identity channel action payload 1 now) sess.session_id
      ≡ count_for_session db sess.session_id + 1
limit_of_one_is_not_kept db identity sess channel action payload now found =
    rw (defer_sync_item_active db identity sess channel action payload 1 now found)
      (deferred_count_lem db db sess channel action payload 1 now kept)
  where
    kept :
        (if leb 1 (count_for_session db sess.session_id)
          then evict_oldest db sess.session_id 0
          else db)
        ≡ db
    kept = unfold evict_oldest in ground arith
