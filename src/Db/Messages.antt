-- ===== src/Db/Messages.antt =====
-- MessageRepo and ChannelRepo.increment_seq of src/hokora/db/queries.py.
use hokora.Base.{ℕ, ◌+◌, Bool, true, Option, none, some, List, [], ◌∷◌, ◌==◌, if◌then◌else◌}
use hokora.Db.{Channel, Message}

unfoldable pub find_channel : ℕ → List Channel → Option Channel
find_channel wanted [] = none
find_channel wanted (row ∷ rows) = if row.id == wanted then some row else find_channel wanted rows

unfoldable pub find_message : ℕ → List Message → Option Message
find_message wanted [] = none
find_message wanted (row ∷ rows) =
    if row.msg_hash == wanted then some row else find_message wanted rows

-- The row of a hash, which is the primary key, with its fields set.
unfoldable pub change_message : ℕ → (Message → Message) → List Message → List Message
change_message wanted fields [] = []
change_message wanted fields (row ∷ rows) =
    let rest = change_message wanted fields rows in
    if row.msg_hash == wanted then fields row ∷ rows else row ∷ rest

abbrev pub deleted_message : ℕ → Message → Message
deleted_message by row = record row {
  deleted = true;
  deleted_by = some by;
  body = none;
  media_path = none;
}

abbrev pub pinned_message : Bool → ℕ → Message → Message
pinned_message pinned now row = record row {
  pinned = pinned;
  pinned_at = if pinned then some now else none;
}

unfoldable pub raise_seq : ℕ → List Channel → List Channel
raise_seq wanted [] = []
raise_seq wanted (row ∷ rows) =
    let rest = raise_seq wanted rows in
    if row.id == wanted then record row { latest_seq = row.latest_seq + 1 } ∷ rows else row ∷ rest
