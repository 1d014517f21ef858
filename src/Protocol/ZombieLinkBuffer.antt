-- ===== src/Protocol/ZombieLinkBuffer.antt =====
-- src/hokora/protocol/zombie_link_buffer.py: recent pushes per link, replayed when the link dies. A link
-- is the number that `id(link)` returns; the lock is left out, since every method holds it from its
-- first access to its last. The data dict of an event is an opaque number.
pub mod Bounds
pub mod Replay
mod Tests
use hokora.Base.{
  ℕ, ◌+◌, ◌-◌, Bool, true, false, Option, none, some, List, [], ◌∷◌, ◌++◌, ltb, length, drop,
  if◌then◌else◌,
}
use hokora.Base.Keys.{number_key}
use hokora.Dict.{Dict, lookup, insert, erase}

abbrev pub default_per_link_cap : ℕ
default_per_link_cap = 500

-- Seconds.
abbrev pub default_retention : ℕ
default_retention = 300

-- An entry `(now, channel_id, event_type, data_dict)`.
pub record Push : Type 0 where
  pub time : ℕ
  pub channel_id : ℕ
  pub event_type : ℕ
  pub data_dict : ℕ

pub record ZombieLinkPushBuffer : Type 0 where
  pub retention : ℕ
  pub per_link_cap : ℕ
  pub pushes : Dict ℕ (List Push)

abbrev pub new_buffer : ℕ → ℕ → ZombieLinkPushBuffer
new_buffer retention cap = record { retention = retention; per_link_cap = cap; pushes = [] }

-- `append` on a `deque(maxlen=cap)` drops from the left.
unfoldable pub append_bounded {ℓ} : {A : Type ℓ} → ℕ → List A → A → List A
append_bounded cap buf a = drop (length buf + 1 - cap) (buf ++ a ∷ [])

-- `while buf and buf[0][0] < now - retention: buf.popleft()`
unfoldable pub trim : ℕ → ℕ → List Push → List Push
trim retention now [] = []
trim retention now (p ∷ ps) =
    let rest = trim retention now ps in if ltb (p.time + retention) now then rest else p ∷ ps

abbrev pub buffered : ZombieLinkPushBuffer → ℕ → List Push
buffered b link = elim (lookup link b.pushes) [ none ↦ [] | some buf ↦ buf ]

-- `time` is the clock reading that becomes the entry's first component.
unfoldable pub record_push : ZombieLinkPushBuffer → ℕ → Push → ZombieLinkPushBuffer
record_push b link p = record b {
  pushes =
      insert link (trim b.retention p.time (append_bounded b.per_link_cap (buffered b link) p))
        b.pushes;
}

unfoldable pub drain : ZombieLinkPushBuffer → ℕ → List Push × ZombieLinkPushBuffer
drain b link = (buffered b link, record b { pushes = erase link b.pushes })

unfoldable pub clear : ZombieLinkPushBuffer → ℕ → ZombieLinkPushBuffer
clear b link = record b { pushes = erase link b.pushes }

unfoldable pub active_link_count : ZombieLinkPushBuffer → ℕ
active_link_count b = length b.pushes

unfoldable pub count_all : Dict ℕ (List Push) → ℕ
count_all [] = 0
count_all ((link, buf) ∷ d) = length buf + count_all d
