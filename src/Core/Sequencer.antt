-- ===== src/Core/Sequencer.antt =====
-- src/hokora/core/sequencer.py: sequence numbers of channels and threads. A lock is an entry that is
-- held or not. The numbers stand in the tables; the caches are never read to assign one.
pub mod Locks
mod Tests
use hokora.Base.{
  ℕ, zero, suc, ◌+◌, Bool, true, false, Option, none, some, List, [], ◌∷◌, ◌++◌, leb, ◌==◌, length,
  if◌then◌else◌,
}
use hokora.Base.Keys.{number_key}
use hokora.Dict.{Dict, lookup, lookup_or, contains, insert}
use hokora.Db.{Channel, Thread, Tables}
use hokora.Db.Messages.{find_channel, raise_seq}

abbrev pub max_lock_entries : ℕ
max_lock_entries = 10_000

-- Of the first `n` entries those that are not held are deleted.
unfoldable pub evict_locks : ℕ → Dict ℕ Bool → Dict ℕ Bool
evict_locks zero locks = locks
evict_locks (suc n) [] = []
evict_locks (suc n) ((key, held) ∷ locks) =
    let rest = evict_locks n locks in if held then (key, held) ∷ rest else rest

unfoldable pub get_lock : ℕ → Dict ℕ Bool → Dict ℕ Bool
unfolding evict_locks
get_lock key locks =
    if contains key locks
    then locks
    else insert key false
        (if leb max_lock_entries (length locks) then evict_locks 100 locks else locks)

pub record SequenceManager : Type 0 where
  pub cache : Dict ℕ ℕ
  pub thread_cache : Dict ℕ ℕ

abbrev pub load_found : SequenceManager → ℕ → Option Channel → ℕ × SequenceManager
load_found s channel none = (0, s)
load_found s channel (some row) =
    (row.latest_seq, record s { cache = insert channel row.latest_seq s.cache })

unfoldable pub load_from_db : SequenceManager → Tables → ℕ → ℕ × SequenceManager
load_from_db s t channel = load_found s channel (find_channel channel t.channels)

unfoldable pub get_cached_seq : SequenceManager → ℕ → ℕ
get_cached_seq s channel = lookup_or channel 0 s.cache

abbrev pub next_found :
    SequenceManager → Tables → ℕ → Option Channel → Option ℕ × SequenceManager × Tables
next_found s t channel none = (none, s, t)
next_found s t channel (some row) = (
  some (row.latest_seq + 1),
  record s { cache = insert channel (row.latest_seq + 1) s.cache },
  record t { channels = raise_seq channel t.channels },
)

-- `none` is NoResultFound.
unfoldable pub next_seq : SequenceManager → Tables → ℕ → Option ℕ × SequenceManager × Tables
next_seq s t channel = next_found s t channel (find_channel channel t.channels)

unfoldable pub find_thread : ℕ → List Thread → Option Thread
find_thread root [] = none
find_thread root (row ∷ rows) =
    if row.root_msg_hash == root then some row else find_thread root rows

unfoldable pub change_thread : ℕ → (Thread → Thread) → List Thread → List Thread
change_thread root fields [] = []
change_thread root fields (row ∷ rows) =
    let rest = change_thread root fields rows in
    if row.root_msg_hash == root then fields row ∷ rows else row ∷ rest

abbrev pub raised_thread : Thread → Thread
raised_thread row = record row { latest_thread_seq = row.latest_thread_seq + 1 }

abbrev pub next_thread_found :
    SequenceManager → Tables → ℕ → ℕ → ℕ → Option Thread → ℕ × SequenceManager × Tables
next_thread_found s t root channel now none = (
  1,
  record s { thread_cache = insert root 1 s.thread_cache },
  record t {
    threads =
        t.threads
        ++ (record {
          root_msg_hash = root;
          channel_id = channel;
          reply_count = 0;
          latest_thread_seq = 1;
          last_activity = now;
          participant_hashes = [];
        })
          ∷ [];
  },
)
next_thread_found s t root channel now (some row) = (
  row.latest_thread_seq + 1,
  record s { thread_cache = insert root (row.latest_thread_seq + 1) s.thread_cache },
  record t { threads = change_thread root raised_thread t.threads },
)

-- `now` is the default of a new row's last activity.
unfoldable pub next_thread_seq : SequenceManager → Tables → ℕ → ℕ → ℕ → ℕ × SequenceManager × Tables
next_thread_seq s t root channel now =
    next_thread_found s t root channel now (find_thread root t.threads)
