-- ===== src/Security/Verification/Replay.antt =====
-- Replays are caught while the nonce is among the last `max_size` that were recorded.
use mathlib.Core.List.{append_assoc}
use mathlib.Core.Path.{subst}
use hokora.Base.{
  ℕ, suc, ◌+◌, ◌≤◌, ◌<◌, ◌≡◌, refl, inl, inr, true, false, Option, List, [], ◌∷◌, ◌++◌, arith,
  length, length-append, Bool-cases, ltb,
}
use hokora.Base.Keys.{bytes_key}
use hokora.Bytes.{Bytes}
use hokora.Dict.{Dict, contains, insert}
use hokora.Dict.Laws.{insert-append, contains-append}
use hokora.Security.Verification.{NonceTracker, evict_over, is_expired, check_and_record}

length-evict_over-le : (m : ℕ) (l : Dict Bytes ℕ) → length (evict_over m l) ≤ m
unfolding evict_over
length-evict_over-le m [] = omega arith
length-evict_over-le m (x ∷ l) = ground (arith, length-evict_over-le m l)

-- The entry of `nonce`, with at most `k` entries recorded after it.
pub record IsRecent (nonce : Bytes) (k : ℕ) (seen : Dict Bytes ℕ) : Type 0 where
  pub before : Dict Bytes ℕ
  pub at : ℕ
  pub after : Dict Bytes ℕ
  pub here : seen ≡ before ++ (nonce, at) ∷ after
  pub near : length after ≤ k

evict_over-suffix :
    (m : ℕ) (x : Bytes × ℕ) (pre post : Dict Bytes ℕ)
    → length post < m
    → (pre' : Dict Bytes ℕ) × (evict_over m (pre ++ x ∷ post) ≡ pre' ++ x ∷ post)
unfolding evict_over
evict_over-suffix m x [] post h = ([], ground arith)
evict_over-suffix m x (y ∷ pre) post h =
    elim (Bool-cases (ltb m (length (y ∷ (pre ++ x ∷ post))))) [
      | inl over ↦ (let (pre', e) = evict_over-suffix m x pre post h in (pre', rw over e))
      | inr fits ↦ (y ∷ pre, rw fits)
    ]

-- `nonces` recorded one after another, each with its timestamp and the time of its call.
abbrev pub record_all : NonceTracker → List (Bytes × Option ℕ × ℕ) → NonceTracker
record_all t [] = t
record_all t ((nonce, timestamp, now) ∷ calls) =
    record_all (check_and_record t nonce timestamp now).1 calls

-- A record that was made keeps what was recent, one place further back.
module _ (nonce : Bytes) (k : ℕ) (t : NonceTracker) (r : IsRecent nonce k t.seen)
    (room : suc k < t.max_size) where
  check_and_record-IsRecent :
      (other : Bytes) (timestamp : Option ℕ) (now : ℕ)
      → IsRecent nonce (suc k) (check_and_record t other timestamp now).1.seen
  unfolding check_and_record
  check_and_record-IsRecent other timestamp now = elim (Bool-cases (contains other t.seen)) [
    | inl old ↦ rw old weaker
    | inr new ↦ rw new (elim (Bool-cases (is_expired t.ttl now timestamp)) [
      | inl late ↦ rw late weaker
      | inr fresh ↦ rw fresh (rw (insert-append other now t.seen new) later)
    ])
  ]
    where
      weaker : IsRecent nonce (suc k) t.seen
      weaker = record {
        before = r.before;
        at = r.at;
        after = r.after;
        here = r.here;
        near = omega (arith, r.near);
      }

      last : Dict Bytes ℕ
      last = (other, now) ∷ []

      grown : t.seen ++ last ≡ r.before ++ (nonce, r.at) ∷ (r.after ++ last)
      grown = rw r.here (append_assoc r.before ((nonce, r.at) ∷ r.after) last)

      size : length (r.after ++ last) ≡ length r.after + 1
      size = length-append r.after last

      later : IsRecent nonce (suc k) (evict_over t.max_size (t.seen ++ last))
      later =
          let (pre, e) =
            evict_over-suffix t.max_size (nonce, r.at) r.before (r.after ++ last)
              (omega (arith, size, r.near)) in
          rw (grown, e)
            (record {
              before = pre;
              at = r.at;
              after = r.after ++ last;
              here = refl;
              near = omega (arith, size, r.near);
            })

max_size-check_and_record :
    (t : NonceTracker) (nonce : Bytes) (timestamp : Option ℕ) (now : ℕ)
    → (check_and_record t nonce timestamp now).1.max_size ≡ t.max_size
unfolding check_and_record
max_size-check_and_record t nonce timestamp now = ground arith

accepted_fresh :
    (t : NonceTracker) (nonce : Bytes) (timestamp : Option ℕ) (now : ℕ)
    → (check_and_record t nonce timestamp now).0 ≡ true
    → (contains nonce t.seen ≡ false) × (is_expired t.ttl now timestamp ≡ false)
unfolding check_and_record
accepted_fresh t nonce timestamp now h = ground arith

-- A nonce that was accepted is the newest entry.
accepted-IsRecent :
    (t : NonceTracker) (nonce : Bytes) (timestamp : Option ℕ) (now : ℕ)
    → 0 < t.max_size
    → (check_and_record t nonce timestamp now).0 ≡ true
    → IsRecent nonce 0 (check_and_record t nonce timestamp now).1.seen
accepted-IsRecent t nonce timestamp now pos h =
    let (new, fresh) = accepted_fresh t nonce timestamp now h in
    let (pre, e) = evict_over-suffix t.max_size (nonce, now) t.seen [] pos in
    unfold check_and_record in
    rw (new, fresh)
      (rw (insert-append nonce now t.seen new, e)
        (record { before = pre; at = now; after = []; here = refl; near = omega arith }))

record_all-IsRecent :
    (nonce : Bytes) (k : ℕ) (t : NonceTracker) (calls : List (Bytes × Option ℕ × ℕ))
    → IsRecent nonce k t.seen
    → k + length calls < t.max_size
    → IsRecent nonce (k + length calls) (record_all t calls).seen
record_all-IsRecent nonce k t [] r h = record {
  before = r.before;
  at = r.at;
  after = r.after;
  here = r.here;
  near = omega (arith, r.near);
}
record_all-IsRecent nonce k t ((other, timestamp, now) ∷ calls) r h =
    subst (λ m. IsRecent nonce m (record_all t' calls).seen) {x = suc k + length calls}
      (omega arith)
      (record_all-IsRecent nonce (suc k) t' calls
        (check_and_record-IsRecent nonce k t r (omega arith) other timestamp now)
        (omega (arith, max_size-check_and_record t other timestamp now)))
  where
    t' : NonceTracker
    t' = (check_and_record t other timestamp now).1

recent_is_replay :
    (nonce : Bytes) (k : ℕ) (t : NonceTracker) (timestamp : Option ℕ) (now : ℕ)
    → IsRecent nonce k t.seen
    → check_and_record t nonce timestamp now ≡ (false, t)
unfolding check_and_record
recent_is_replay nonce k t timestamp now r =
    let seen : contains nonce t.seen ≡ true =
      rw r.here (contains-append nonce r.at r.before r.after) in
    rw seen

-- A nonce that the tracker accepted is refused, and the tracker left as it is, as long as fewer
-- than max_size calls of check_and_record were made in between, whatever their nonces, timestamps
-- and times.
pub replay_is_refused :
    (t : NonceTracker) (nonce : Bytes) (timestamp later : Option ℕ) (now now' : ℕ)
    (calls : List (Bytes × Option ℕ × ℕ))
    → (check_and_record t nonce timestamp now).0 ≡ true
    → length calls < t.max_size
    → let t' = record_all (check_and_record t nonce timestamp now).1 calls in
      check_and_record t' nonce later now' ≡ (false, t')
replay_is_refused t nonce timestamp later now now' calls h room =
    recent_is_replay nonce (0 + length calls) _ later now' (
      record_all-IsRecent nonce 0 _ calls (accepted-IsRecent t nonce timestamp now (omega arith) h)
        (omega (arith, max_size-check_and_record t nonce timestamp now)))

-- No call takes a tracker that is within its capacity over it.
pub check_and_record-bounded :
    (t : NonceTracker) (nonce : Bytes) (timestamp : Option ℕ) (now : ℕ)
    → length t.seen ≤ t.max_size
    → length (check_and_record t nonce timestamp now).1.seen ≤ t.max_size
unfolding check_and_record
check_and_record-bounded t nonce timestamp now h =
    ground (arith, length-evict_over-le t.max_size (insert nonce now t.seen))
