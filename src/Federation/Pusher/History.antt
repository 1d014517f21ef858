-- ===== src/Federation/Pusher/History.antt =====
-- src/hokora/db/queries.py, `get_history`, and src/hokora/federation/pusher.py: the numbers of what is
-- there to push.
use hokora.Base.{
  ℕ, zero, suc, ◌≤◌, ◌<◌, Option, none, some, List, [], ◌∷◌, inl, inr, Bool-cases, arith, leb, ltb,
  ◌==◌, take,
}
use hokora.Db.{Message, Tables}
use hokora.Federation.Pusher.{
  seq_after, with_seq, rows_after, insert_by_seq, by_seq, get_history, is_held_back, to_push,
}

-- Only numbers above a bound.
abbrev pub AllAbove : ℕ → List (ℕ × Message) → Type 0
AllAbove lo [] = Unit
AllAbove lo (x ∷ rest) = (lo < x.0) × AllAbove lo rest

with_seq-AllAbove :
    (since : ℕ) (n : Option ℕ) (m : Message) (rest : List (ℕ × Message))
    → AllAbove since rest
    → AllAbove since (with_seq (seq_after since n) m rest)
with_seq-AllAbove since none m rest a = a
with_seq-AllAbove since (some n) m rest a = elim (Bool-cases (ltb since n)) [
  | inl above ↦ rw above (ground arith, a)
  | inr below ↦ rw below a
]

rows_after-AllAbove :
    (channel since : ℕ) (ms : List Message) → AllAbove since (rows_after channel since ms)
unfolding rows_after
rows_after-AllAbove channel since [] = tt
rows_after-AllAbove channel since (m ∷ ms) =
    let rest = rows_after-AllAbove channel since ms in
    elim (Bool-cases (m.channel_id == channel)) [
      | inl inside ↦ rw inside (with_seq-AllAbove since m.seq m _ rest)
      | inr elsewhere ↦ rw elsewhere rest
    ]

insert-AllAbove :
    (lo n : ℕ) (m : Message) (rest : List (ℕ × Message))
    → lo < n
    → AllAbove lo rest
    → AllAbove lo (insert_by_seq n m rest)
unfolding insert_by_seq
insert-AllAbove lo n m [] h a = (h, tt)
insert-AllAbove lo n m ((j, x) ∷ rest) h a = elim (Bool-cases (leb n j)) [
  | inl first ↦ rw first (h, a)
  | inr later ↦ rw later (a.0, insert-AllAbove lo n m rest h a.1)
]

by_seq-AllAbove :
    (lo : ℕ) (rows : List (ℕ × Message)) → AllAbove lo rows → AllAbove lo (by_seq rows)
unfolding by_seq
by_seq-AllAbove lo [] a = tt
by_seq-AllAbove lo ((n, m) ∷ rest) a =
    insert-AllAbove lo n m (by_seq rest) a.0 (by_seq-AllAbove lo rest a.1)

take-AllAbove :
    (lo limit : ℕ) (rows : List (ℕ × Message)) → AllAbove lo rows → AllAbove lo (take limit rows)
take-AllAbove lo zero rows a = tt
take-AllAbove lo (suc limit) [] a = tt
take-AllAbove lo (suc limit) (x ∷ rows) a = (a.0, take-AllAbove lo limit rows a.1)

pub get_history-AllAbove :
    (ms : List Message) (channel since limit : ℕ)
    → AllAbove since (get_history ms channel since limit)
unfolding get_history
get_history-AllAbove ms channel since limit =
    take-AllAbove since limit _ (by_seq-AllAbove since _ (rows_after-AllAbove channel since ms))

pub to_push-AllAbove :
    (t : Tables) (peer lo : ℕ) (rows : List (ℕ × Message))
    → AllAbove lo rows
    → AllAbove lo (to_push t peer rows)
unfolding to_push
to_push-AllAbove t peer lo [] a = tt
to_push-AllAbove t peer lo ((n, m) ∷ rest) a =
    let others = to_push-AllAbove t peer lo rest a.1 in
    elim (Bool-cases (is_held_back t peer m)) [
      | inl back ↦ rw back others
      | inr free ↦ rw free (a.0, others)
    ]

pub AllAbove-le :
    (lo hi : ℕ) (rows : List (ℕ × Message)) → lo ≤ hi → AllAbove hi rows → AllAbove lo rows
AllAbove-le lo hi [] h a = tt
AllAbove-le lo hi (x ∷ rows) h a = (omega arith, AllAbove-le lo hi rows h a.1)
