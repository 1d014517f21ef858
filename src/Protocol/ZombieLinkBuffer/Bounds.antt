-- ===== src/Protocol/ZombieLinkBuffer/Bounds.antt =====
-- The buffer of a link never outgrows its cap.
use hokora.Base.{
  ℕ, ◌+◌, ◌-◌, ◌≤◌, List, [], ◌∷◌, ◌++◌, arith, length, length-append, length-drop, Bool-cases, inl,
  inr,
}
use hokora.Base.Keys.{◌≟◌, number_key}
use hokora.Dict.{Dict, insert, erase}
use hokora.Protocol.ZombieLinkBuffer.{
  Push, ZombieLinkPushBuffer, append_bounded, trim, buffered, record_push,
}

-- Every link's buffer is within the cap.
abbrev pub AllWithin : ℕ → Dict ℕ (List Push) → Type 0
AllWithin cap [] = Unit
AllWithin cap ((link, buf) ∷ d) = (length buf ≤ cap) × AllWithin cap d

length-append_bounded :
    {A : Type 0} (cap : ℕ) (buf : List A) (a : A) → length (append_bounded cap buf a) ≤ cap
unfolding append_bounded
length-append_bounded cap buf a =
    omega (arith, length-drop (length buf + 1 - cap) (buf ++ a ∷ []), length-append buf (a ∷ []))

length-trim : (retention now : ℕ) (ps : List Push) → length (trim retention now ps) ≤ length ps
unfolding trim
length-trim retention now [] = omega arith
length-trim retention now (p ∷ ps) = ground (arith, length-trim retention now ps)

insert-AllWithin :
    (cap link : ℕ) (buf : List Push) (d : Dict ℕ (List Push))
    → length buf ≤ cap
    → AllWithin cap d
    → AllWithin cap (insert link buf d)
unfolding insert
insert-AllWithin cap link buf [] h w = (h, tt)
insert-AllWithin cap link buf ((j, b) ∷ d) h w = elim (Bool-cases (j ≟ link)) [
  | inl e ↦ rw e (h, w.1)
  | inr e ↦ rw e (w.0, insert-AllWithin cap link buf d h w.1)
]

erase-AllWithin :
    (cap link : ℕ) (d : Dict ℕ (List Push)) → AllWithin cap d → AllWithin cap (erase link d)
unfolding erase
erase-AllWithin cap link [] w = tt
erase-AllWithin cap link ((j, b) ∷ d) w = elim (Bool-cases (j ≟ link)) [
  | inl e ↦ rw e (erase-AllWithin cap link d w.1)
  | inr e ↦ rw e (w.0, erase-AllWithin cap link d w.1)
]

-- The buffer of one link after a run of pushes, each to some link.
abbrev pub record_all : ZombieLinkPushBuffer → List (ℕ × Push) → ZombieLinkPushBuffer
record_all b [] = b
record_all b ((link, p) ∷ log) = record_all (record_push b link p) log

-- No run of recorded pushes takes the buffer of any link over the cap.
pub record_all_bounded :
    (b : ZombieLinkPushBuffer) (log : List (ℕ × Push))
    → AllWithin b.per_link_cap b.pushes
    → AllWithin b.per_link_cap (record_all b log).pushes
unfolding record_push
record_all_bounded b [] w = w
record_all_bounded b ((link, p) ∷ log) w = record_all_bounded (record_push b link p) log (
    unfold record_push in
    insert-AllWithin b.per_link_cap link _ b.pushes
      (omega (
        arith,
        length-trim b.retention p.time (append_bounded b.per_link_cap (buffered b link) p),
        length-append_bounded b.per_link_cap (buffered b link) p,
      ))
      w)
