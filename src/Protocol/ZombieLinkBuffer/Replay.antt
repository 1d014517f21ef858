-- ===== src/Protocol/ZombieLinkBuffer/Replay.antt =====
-- What the buffer holds, and what a dead link gets back.
use mathlib.Core.List.{append-nil}
use hokora.Base.{
  ==_iff, ℕ, suc, ◌+◌, ◌≤◌, ◌<◌, ◌≡◌, ◌≢◌, refl, sym, ap, ◌∙◌, true, false, List, [], ◌∷◌, ◌++◌,
  arith, ◌==◌, length, length-append, drop, if◌then◌else◌, Bool-cases, inl, inr,
}
use hokora.Base.Keys.{number_key}
use hokora.Dict.Laws.{lookup-insert, lookup-erase}
use hokora.Protocol.ZombieLinkBuffer.{
  Push, ZombieLinkPushBuffer, append_bounded, trim, buffered, record_push, drain,
}
use hokora.Protocol.ZombieLinkBuffer.Bounds.{record_all}

-- The pushes of a log that went to a link.
abbrev pub pushes_to : ℕ → List (ℕ × Push) → List Push
pushes_to link [] = []
pushes_to link ((j, p) ∷ log) =
    let rest = pushes_to link log in if j == link then p ∷ rest else rest

-- The clock readings of pushes are at least `start` and at most `finish`.
abbrev pub Between : ℕ → ℕ → List Push → Type 0
Between start finish [] = Unit
Between start finish (p ∷ ps) = (start ≤ p.time) × (p.time ≤ finish) × Between start finish ps

abbrev pub LogBetween : ℕ → ℕ → List (ℕ × Push) → Type 0
LogBetween start finish [] = Unit
LogBetween start finish ((link, p) ∷ log) =
    (start ≤ p.time) × (p.time ≤ finish) × LogBetween start finish log

append_bounded_room :
    {A : Type 0} (cap : ℕ) (buf : List A) (a : A)
    → length buf < cap
    → append_bounded cap buf a ≡ buf ++ a ∷ []
unfolding append_bounded
append_bounded_room cap buf a h = ap (λ n. drop n (buf ++ a ∷ [])) {y = 0} (omega arith)

trim_recent :
    (retention now start : ℕ) (p : Push) (ps : List Push)
    → start ≤ p.time
    → now ≤ start + retention
    → trim retention now (p ∷ ps) ≡ p ∷ ps
unfolding trim
trim_recent retention now start p ps h e = ground arith

trim_within :
    (retention now start finish : ℕ) (ps : List Push)
    → Between start finish ps
    → now ≤ start + retention
    → trim retention now ps ≡ ps
trim_within retention now start finish [] w e = unfold trim in refl
trim_within retention now start finish (p ∷ ps) w e = trim_recent retention now start p ps w.0 e

Between-append :
    (start finish : ℕ) (ps : List Push) (p : Push)
    → Between start finish ps
    → start ≤ p.time
    → p.time ≤ finish
    → Between start finish (ps ++ p ∷ [])
Between-append start finish [] p w h k = (h, k, tt)
Between-append start finish (q ∷ ps) p w h k = (w.0, w.1, Between-append start finish ps p w.2 h k)

module _ (b : ZombieLinkPushBuffer) (link : ℕ) (p : Push) (start finish : ℕ) where
  buffered-record_self :
      Between start finish (buffered b link)
      → start ≤ p.time
      → p.time ≤ finish
      → finish ≤ start + b.retention
      → length (buffered b link) < b.per_link_cap
      → buffered (record_push b link p) link ≡ buffered b link ++ p ∷ []
  unfolding record_push
  buffered-record_self w h k e room =
      let whole : trim b.retention p.time (append_bounded b.per_link_cap (buffered b link) p)
          ≡ buffered b link ++ p ∷ [] =
        ap (trim b.retention p.time) (append_bounded_room b.per_link_cap (buffered b link) p room)
        ∙ trim_within b.retention p.time start finish (buffered b link ++ p ∷ [])
            (Between-append start finish (buffered b link) p w h k) (omega arith) in
      ground (
        arith,
        whole,
        lookup-insert link link
            (trim b.retention p.time (append_bounded b.per_link_cap (buffered b link) p)) b.pushes,
      )

  buffered-record_other : (j : ℕ) → j ≢ link → buffered (record_push b j p) link ≡ buffered b link
  unfolding record_push
  buffered-record_other j ne = ground (
    arith,
    lookup-insert j link (trim b.retention p.time (append_bounded b.per_link_cap (buffered b j) p))
        b.pushes,
  )

append_assoc : (xs : List Push) (p : Push) (ys : List Push) → (xs ++ p ∷ []) ++ ys ≡ xs ++ p ∷ ys
append_assoc [] p ys = refl
append_assoc (x ∷ xs) p ys = ap (λ l. x ∷ l) (append_assoc xs p ys)

pushes_to_self :
    (link j : ℕ) (p : Push) (log : List (ℕ × Push))
    → (j == link) ≡ true
    → pushes_to link ((j, p) ∷ log) ≡ p ∷ pushes_to link log
pushes_to_self link j p log h = rw h refl

pushes_to_other :
    (link j : ℕ) (p : Push) (log : List (ℕ × Push))
    → (j == link) ≡ false
    → pushes_to link ((j, p) ∷ log) ≡ pushes_to link log
pushes_to_other link j p log h = rw h refl

-- The next push goes to the link, or to another one.
buffered-record_next :
    (b : ZombieLinkPushBuffer) (log : List (ℕ × Push)) (p : Push) (link j start finish : ℕ)
    → Between start finish (buffered b link)
    → start ≤ p.time
    → p.time ≤ finish
    → finish ≤ start + b.retention
    → length (buffered b link) + length (pushes_to link ((j, p) ∷ log)) ≤ b.per_link_cap
    → Between start finish (buffered (record_push b j p) link)
      × (length (buffered (record_push b j p) link) + length (pushes_to link log) ≤ b.per_link_cap)
      × (buffered (record_push b j p) link ++ pushes_to link log
          ≡ buffered b link ++ pushes_to link ((j, p) ∷ log))
buffered-record_next b log p link j start finish w h k e room = elim (Bool-cases (j == link)) [
  | inl same ↦
      (let here : j ≡ link = (==_iff j link).0 same in
        let size : length (pushes_to link ((j, p) ∷ log)) ≡ suc (length (pushes_to link log)) =
          ap length (pushes_to_self link j p log same) in
        let step : buffered (record_push b j p) link ≡ buffered b link ++ p ∷ [] =
          rw here
            (buffered-record_self b link p start finish w h k e (omega (arith, room, size))) in
        (
          rw step (Between-append start finish (buffered b link) p w h k),
          rw step (omega (arith, length-append (buffered b link) (p ∷ []), room, size)),
          rw (step, pushes_to_self link j p log same)
              (append_assoc (buffered b link) p (pushes_to link log)),
        ))
  | inr other ↦
      (let ne : j ≢ link = λ h. ground (arith, (==_iff j link).1 h) in
        let step : buffered (record_push b j p) link ≡ buffered b link =
          buffered-record_other b link p start finish j ne in
        let size : length (pushes_to link ((j, p) ∷ log)) ≡ length (pushes_to link log) =
          ap length (pushes_to_other link j p log other) in
        (
          rw step w,
          rw step (omega (arith, room, size)),
          rw (step, pushes_to_other link j p log other) refl,
        ))
]

buffered-record_all :
    (b : ZombieLinkPushBuffer) (log : List (ℕ × Push)) (link start finish : ℕ)
    → Between start finish (buffered b link)
    → LogBetween start finish log
    → finish ≤ start + b.retention
    → length (buffered b link) + length (pushes_to link log) ≤ b.per_link_cap
    → buffered (record_all b log) link ≡ buffered b link ++ pushes_to link log
buffered-record_all b [] link start finish w l e room = sym (append-nil (buffered b link))
buffered-record_all b ((j, p) ∷ log) link start finish w l e room =
    let (w', room', same) = buffered-record_next b log p link j start finish w l.0 l.1 e room in
    buffered-record_all (record_push b j p) log link start finish w' l.2 (unfold record_push in e)
      (unfold record_push in room')
    ∙ same

-- Pushes to any links, all recorded within the retention time and no more of them to a link than
-- the cap allows, come back from drain for that link complete and in order, after those that were
-- there before, and afterwards nothing is buffered for it.
pub drain-record_all :
    (b : ZombieLinkPushBuffer) (log : List (ℕ × Push)) (link start finish : ℕ)
    → Between start finish (buffered b link)
    → LogBetween start finish log
    → finish ≤ start + b.retention
    → length (buffered b link) + length (pushes_to link log) ≤ b.per_link_cap
    → let (replayed, b') = drain (record_all b log) link in
      (replayed ≡ buffered b link ++ pushes_to link log) × (buffered b' link ≡ [])
unfolding drain
drain-record_all b log link start finish w l e room = (
  buffered-record_all b log link start finish w l e room,
  ground (arith, lookup-erase link link (record_all b log).pushes),
)
