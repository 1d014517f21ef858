-- ===== src/Protocol/ZombieLinkBuffer/Tests.antt =====
-- Runs of the zombie-link buffer.
use hokora.Base.{ℕ, ◌≡◌, refl, List, [], ◌∷◌, arith}
use hokora.Dict.{lookup, insert, erase}
use hokora.Protocol.ZombieLinkBuffer.{
  Push, new_buffer, buffered, record_push, drain, clear, active_link_count, count_all,
  append_bounded, trim,
}
use hokora.Protocol.ZombieLinkBuffer.Replay.{drain-record_all}
use hokora.Protocol.ZombieLinkBuffer.Bounds.{AllWithin, record_all, record_all_bounded}

abbrev push_at : ℕ → ℕ → Push
push_at t d = record { time = t; channel_id = 7; event_type = 0; data_dict = d }

-- Two links in turn.
abbrev log : List (ℕ × Push)
log = (1, push_at 10 100) ∷ (2, push_at 11 101) ∷ (1, push_at 12 102) ∷ []

drain-record_all_example :
    let (replayed, b') = drain (record_all (new_buffer 300 2) log) 1 in
    (replayed ≡ push_at 10 100 ∷ push_at 12 102 ∷ []) × (buffered b' 1 ≡ [])
unfolding lookup
drain-record_all_example =
    drain-record_all (new_buffer 300 2) log 1 10 12 (unfold lookup in tt)
      (omega arith, omega arith, (omega arith, omega arith, (omega arith, omega arith, tt)))
      (omega arith) (unfold lookup in omega arith)

record_all_bounded_at_input : AllWithin 1 (record_all (new_buffer 300 1) log).pushes
record_all_bounded_at_input = record_all_bounded (new_buffer 300 1) log tt

-- The cap drops the oldest, and so does the retention time.
capped : buffered (record_all (new_buffer 300 1) log) 1 ≡ push_at 12 102 ∷ []
unfolding record_push append_bounded trim lookup insert
capped = refl

expired : buffered (record_all (new_buffer 1 5) log) 1 ≡ push_at 12 102 ∷ []
unfolding record_push append_bounded trim lookup insert
expired = refl

counted : count_all (record_all (new_buffer 300 5) log).pushes ≡ 3
unfolding count_all record_push append_bounded trim lookup insert
counted = refl

cleared : active_link_count (clear (record_all (new_buffer 300 5) log) 2) ≡ 1
unfolding active_link_count clear record_push append_bounded trim lookup insert erase
cleared = refl
