-- ===== src/Protocol/Session/Tests.antt =====
-- Runs of the session manager.
use hokora.Base.{ℕ, ◌+◌, ◌≡◌, refl, false, none, some, List, [], ◌∷◌, arith, map, ◌≤◌, true}
use hokora.Protocol.Session.{
  SessionManager, SessionInit, resumed, rejected, updated, unwrap_deferred_item, plain_item,
  note_destination, handle_session_init, resumable, resume, replace_session, close_previous,
  handle_profile_update, update_session, cleanup_expired_sessions, max_sync_limit,
}
use hokora.Protocol.Session.Store.{
  count_for_session, enqueue, Session, active, DeferredSyncItem, Db, create_session,
  get_active_session, latest_active, get_session, find_session, update_row, update_rows,
  update_profile, flush_for_session, sort_items, insert_item, items_of, delete_expired, kept_rows,
  owned, delete_items, unexpired,
}
use hokora.Protocol.Session.OneActive.{OneActive}
use hokora.Protocol.Session.Deferral.{
  IdsDiffer, defer_sync_item, defer_for, evict_oldest, newest_first, insert_newest, without_evicted,
  defer_sync_item_bounded, limit_of_one_is_not_kept,
}
use hokora.Protocol.Session.Calls.{empty, init, Calls-OneActive}
use hokora.Protocol.Session.Resume.{GetsAll, handle_session_init_resumes}

abbrev manager : SessionManager
manager = record { session_timeout = 3600; lxmf_destinations = [] }

abbrev same : ℕ → ℕ
same n = n

abbrev first_visit : SessionInit
first_visit = record {
  client_version = some 1;
  wanted_profile = some 3;
  token = none;
  lxmf_destination = none;
}

abbrev with_token : SessionInit
with_token = record {
  client_version = some 1;
  wanted_profile = some 1;
  token = some (7 ∷ 7 ∷ []);
  lxmf_destination = some 40;
}

abbrev no_rows : Db
no_rows = record { sessions = []; items = []; next_id = 1 }

abbrev visitor : Session
visitor = record {
  session_id = 100;
  identity_hash = 11;
  sync_profile = 3;
  version = 1;
  state = active;
  resume_token = some (7 ∷ 7 ∷ []);
  deferred_count = 0;
  last_activity = 50;
  expires_at = some 3650;
}

abbrev item_of : ℕ → ℕ → ℕ → DeferredSyncItem
item_of id owner time = record {
  id = id;
  owner = owner;
  channel_id = some 5;
  sync_action = 48;
  payload = id + 1000;
  priority = 0;
  created_at = time;
  item_expires_at = some 3650;
}

-- Two items of the visitor's session and one of another session.
abbrev db_before : Db
db_before = record {
  sessions = visitor ∷ [];
  items = item_of 1 100 60 ∷ item_of 2 200 61 ∷ item_of 3 100 62 ∷ [];
  next_id = 4;
}

visit :
    (handle_session_init same manager no_rows 11 first_visit 100 (7 ∷ 7 ∷ []) 50).1.sessions
    ≡ visitor ∷ []
unfolding handle_session_init max_sync_limit resumable replace_session close_previous
    get_active_session latest_active create_session note_destination
visit = refl

handle_session_init_resumes_example :
    let (answer, db', s') =
      handle_session_init same manager db_before 11 with_token 101 (8 ∷ []) 70 in
    (flushed : List DeferredSyncItem) × (answer
      ≡ resumed 100 1 (map (unwrap_deferred_item same) flushed))
    × GetsAll db_before.items 100 flushed
    × (db'.items ≡ items_of 100 false db_before.items)
handle_session_init_resumes_example =
    handle_session_init_resumes same manager db_before 11 with_token 101 (8 ∷ []) 70 visitor 7
      (7 ∷ []) (omega arith) (unfold max_sync_limit in refl) refl
      (unfold get_active_session latest_active in refl) refl

resumed_with_both :
    (handle_session_init same manager db_before 11 with_token 101 (8 ∷ []) 70).0
    ≡ resumed 100 1 (
        unwrap_deferred_item same (item_of 1 100 60)
        ∷ unwrap_deferred_item same (item_of 3 100 62)
        ∷ [])
unfolding handle_session_init max_sync_limit resumable resume get_active_session latest_active
    update_row update_rows flush_for_session sort_items insert_item items_of note_destination
    unwrap_deferred_item
resumed_with_both = refl

Calls-OneActive_example :
    OneActive
      (handle_session_init same manager
        (handle_session_init same manager no_rows 11 first_visit 100 (7 ∷ []) 50).1
        11
        first_visit
        101
        (8 ∷ [])
        60).1
Calls-OneActive_example = Calls-OneActive {unwrap = same} (
    init manager 11 first_visit 101 (8 ∷ []) 60 (init manager 11 first_visit 100 (7 ∷ []) 50 empty))

too_new :
    (handle_session_init same manager no_rows 11
      (record first_visit { client_version = some 2 })
      100
      []
      50).0
    ≡ rejected 1
unfolding handle_session_init note_destination
too_new = refl

upgraded :
    (handle_profile_update db_before 100 1 80).0
    ≡ updated 100 1 0 (plain_item (item_of 1 100 60) ∷ plain_item (item_of 3 100 62) ∷ [])
unfolding handle_profile_update max_sync_limit get_session find_session update_session
    update_profile update_row update_rows flush_for_session sort_items insert_item items_of
    plain_item
upgraded = refl

-- An expired session goes, and its items with it.
expired :
    (cleanup_expired_sessions manager db_before 3651).1
    ≡ record db_before { sessions = []; items = [] }
unfolding cleanup_expired_sessions delete_expired kept_rows owned delete_items unexpired
    find_session
expired = refl

visitor_found : get_active_session db_before 11 ≡ some visitor
visitor_found = unfold get_active_session latest_active in refl

ids_differ : IdsDiffer db_before.items
ids_differ n = ground arith

defer_sync_item_bounded_example :
    count_for_session (defer_sync_item db_before 11 (some 5) 48 9 2 90) 100 ≤ 2
defer_sync_item_bounded_example =
    defer_sync_item_bounded db_before 11 visitor (some 5) 48 9 2 90 visitor_found ids_differ
      (omega arith)

limit_of_one_is_not_kept_at_input :
    count_for_session (defer_sync_item db_before 11 (some 5) 48 9 1 90) 100
    ≡ count_for_session db_before 100 + 1
limit_of_one_is_not_kept_at_input =
    limit_of_one_is_not_kept db_before 11 visitor (some 5) 48 9 90 visitor_found

-- The oldest of the queue makes room.
deferred :
    items_of 100 true (defer_sync_item db_before 11 none 48 9 2 90).items
    ≡ item_of 3 100 62 ∷ record (item_of 4 100 90) { channel_id = none; payload = 9 } ∷ []
unfolding defer_sync_item defer_for evict_oldest newest_first insert_newest without_evicted enqueue
    update_row count_for_session items_of get_active_session latest_active
deferred = refl
