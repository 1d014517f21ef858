-- ===== src/Core/Processor/Sequences.antt =====
-- src/hokora/core/message.py and src/hokora/core/sequencer.py: the numbers of a channel's messages rise in
-- the order in which the messages were stored.
use mathlib.Core.Path.{subst}
use hokora.Base.{
  ℕ, suc, ◌+◌, ◌≤◌, ◌<◌, ◌≡◌, ◌≢◌, refl, ◌∙◌, ap, true, Option, none, some, List, [], ◌∷◌, ◌++◌,
  arith, ◌==◌, if◌then◌else◌, inl, inr, Bool-cases, Option-cases,
}
use hokora.Db.{Channel, Message, Tables}
use hokora.Db.Messages.{find_channel, change_message, raise_seq}

abbrev seq_in : ℕ → Message → List ℕ → List ℕ
seq_in channel m rest =
    if m.channel_id == channel then elim m.seq [ none ↦ rest | some n ↦ n ∷ rest ] else rest

-- The numbers of a channel's messages, in the order of the table.
unfoldable pub timeline : ℕ → List Message → List ℕ
timeline channel [] = []
timeline channel (m ∷ ms) = seq_in channel m (timeline channel ms)

abbrev seq_of : Option Channel → ℕ
seq_of none = 0
seq_of (some row) = row.latest_seq

-- The number that was assigned last.
unfoldable pub latest : ℕ → List Channel → ℕ
latest channel rows = seq_of (find_channel channel rows)

-- Strictly rising from above `lo`, and nowhere above `hi`.
abbrev pub IsRising : ℕ → List ℕ → ℕ → Type 0
IsRising lo [] hi = lo ≤ hi
IsRising lo (x ∷ xs) hi = (lo < x) × IsRising x xs hi

IsRising-le : (lo hi hi' : ℕ) (xs : List ℕ) → hi ≤ hi' → IsRising lo xs hi → IsRising lo xs hi'
IsRising-le lo hi hi' [] h r = omega arith
IsRising-le lo hi hi' (x ∷ xs) h r = (r.0, IsRising-le x hi hi' xs h r.1)

IsRising-append :
    (lo hi n : ℕ) (xs : List ℕ) → hi < n → IsRising lo xs hi → IsRising lo (xs ++ n ∷ []) n
IsRising-append lo hi n [] h r = (omega arith, omega arith)
IsRising-append lo hi n (x ∷ xs) h r = (r.0, IsRising-append x hi n xs h r.1)

timeline-append_other :
    (channel : ℕ) (ms : List Message) (m : Message)
    → m.channel_id ≢ channel
    → timeline channel (ms ++ m ∷ []) ≡ timeline channel ms
unfolding timeline
timeline-append_other channel [] m n = ground (arith, n)
timeline-append_other channel (x ∷ ms) m n =
    ap (seq_in channel x) (timeline-append_other channel ms m n)

timeline-append_none :
    (channel : ℕ) (ms : List Message) (m : Message)
    → m.seq ≡ none
    → timeline channel (ms ++ m ∷ []) ≡ timeline channel ms
unfolding timeline
timeline-append_none channel [] m e = elim (Bool-cases (m.channel_id == channel)) [
  | inl t ↦ rw (t, e) refl
  | inr f ↦ rw f refl
]
timeline-append_none channel (x ∷ ms) m e =
    ap (seq_in channel x) (timeline-append_none channel ms m e)

seq_in-append :
    (channel : ℕ) (m : Message) (xs : List ℕ) (n : ℕ)
    → seq_in channel m (xs ++ n ∷ []) ≡ seq_in channel m xs ++ n ∷ []
seq_in-append channel m xs n = elim (Bool-cases (m.channel_id == channel)) [
  | inl t ↦ elim (Option-cases m.seq) [ inl e ↦ rw (t, e) refl | inr (k, e) ↦ rw (t, e) refl ]
  | inr f ↦ rw f refl
]

timeline-append :
    (ms : List Message) (m : Message) (n : ℕ)
    → m.seq ≡ some n
    → timeline m.channel_id (ms ++ m ∷ []) ≡ timeline m.channel_id ms ++ n ∷ []
unfolding timeline
timeline-append [] m n e =
    let t : (m.channel_id == m.channel_id) ≡ true = ground arith in rw (t, e) refl
timeline-append (x ∷ ms) m n e =
    ap (seq_in m.channel_id x) (timeline-append ms m n e)
    ∙ seq_in-append m.channel_id x (timeline m.channel_id ms) n

-- A change that keeps a row's channel and number.
abbrev pub KeepsPlace : (Message → Message) → Type 0
KeepsPlace fields =
    (m : Message) → ((fields m).channel_id ≡ m.channel_id) × ((fields m).seq ≡ m.seq)

timeline-change :
    (channel h : ℕ) (fields : Message → Message) (ms : List Message)
    → KeepsPlace fields
    → timeline channel (change_message h fields ms) ≡ timeline channel ms
unfolding timeline change_message
timeline-change channel h fields [] k = refl
timeline-change channel h fields (m ∷ ms) k = elim (Bool-cases (m.msg_hash == h)) [
  | inl t ↦ rw (t, (k m).0, (k m).1) refl
  | inr f ↦ rw f (ap (seq_in channel m) (timeline-change channel h fields ms k))
]

pub latest-raise :
    (c channel : ℕ) (rows : List Channel) (row : Channel)
    → find_channel c rows ≡ some row
    → latest channel (raise_seq c rows)
      ≡ (if c == channel then row.latest_seq + 1 else latest channel rows)
unfolding latest find_channel raise_seq
latest-raise c channel [] row h = absurd (cc)
latest-raise c channel (x ∷ rows) row h = ground (arith, latest-raise c channel rows row, h)

pub latest_found :
    (c : ℕ) (rows : List Channel) (row : Channel)
    → find_channel c rows ≡ some row
    → latest c rows ≡ row.latest_seq
unfolding latest
latest_found c rows row h = rw h refl

-- The invariant, for every channel.
abbrev pub InOrder : Tables → Type 0
InOrder t = (channel : ℕ) → IsRising 0 (timeline channel t.messages) (latest channel t.channels)

-- The same with the number `n` of a channel assigned and not yet stored.
abbrev pub HasRoom : Tables → ℕ → ℕ → Type 0
HasRoom t c n = InOrder t × (latest c t.channels ≡ suc n) × IsRising 0 (timeline c t.messages) n

-- A number that is assigned is the next after all stored ones.
pub raise-HasRoom :
    (t : Tables) (c : ℕ) (row : Channel)
    → InOrder t
    → find_channel c t.channels ≡ some row
    → HasRoom (record t { channels = raise_seq c t.channels }) c row.latest_seq
raise-HasRoom t c row order h =
    let raised = λ (channel : ℕ). latest-raise c channel t.channels row h in
    let before = latest_found c t.channels row h in
    (
      λ channel.
          IsRising-le 0 (latest channel t.channels) _ (timeline channel t.messages)
            (ground (arith, raised channel, before)) (order channel),
      raised c ∙ ground arith,
      rw before at (order c),
    )

pub append-InOrder :
    (t : Tables) (m : Message)
    → InOrder t
    → m.seq ≡ none
    → InOrder (record t { messages = t.messages ++ m ∷ [] })
append-InOrder t m order e channel =
    rw (timeline-append_none channel t.messages m e) (order channel)

pub append-numbered :
    (t : Tables) (m : Message) (k : ℕ)
    → HasRoom t m.channel_id k
    → m.seq ≡ some (suc k)
    → InOrder (record t { messages = t.messages ++ m ∷ [] })
append-numbered t m k room e channel = elim (Bool-cases (m.channel_id == channel)) [
  | inl same ↦
      let id : m.channel_id ≡ channel = ground arith in
      subst (λ (c : ℕ). IsRising 0 (timeline c (t.messages ++ m ∷ [])) (latest c t.channels)) id
        (rw (room.1, timeline-append t.messages m (suc k) e)
          (IsRising-append 0 k (suc k) (timeline m.channel_id t.messages) (omega arith) room.2))
  | inr n ↦
      let other : m.channel_id ≢ channel = ground arith in
      rw (timeline-append_other channel t.messages m other) (room.0 channel)
]

pub change-InOrder :
    (t : Tables) (h : ℕ) (fields : Message → Message)
    → KeepsPlace fields
    → InOrder t
    → InOrder (record t { messages = change_message h fields t.messages })
change-InOrder t h fields k order channel =
    rw (timeline-change channel h fields t.messages k) (order channel)
