-- ===== src/Core/Processor/Rows.antt =====
-- What the handlers of src/hokora/core/message.py find in the table of messages and change in it.
use mathlib.Core.Path.{subst}
use hokora.Base.{
  ℕ, ◌≡◌, ◌≢◌, refl, sym, ◌∙◌, ap, true, false, Option, none, some, List, [], ◌∷◌, ◌++◌, arith,
  ◌==◌, if◌then◌else◌, inl, inr, Bool-cases, Option-cases, some_inj,
}
use hokora.Result.{ok, err}
use hokora.Db.{Message, Tables}
use hokora.Db.Messages.{find_message, change_message}
use hokora.Core.Processor.Envelope.{wrong_channel}
use hokora.Core.Processor.Handlers.{in_channel, require_target_in_channel}

abbrev pub All : (Message → Type 0) → List Message → Type 0
All P [] = Unit {0}
All P (m ∷ ms) = P m × All P ms

pub All-append :
    (P : Message → Type 0) (ms : List Message) (m : Message) → All P ms → P m → All P (ms ++ m ∷ [])
All-append P [] m a p = (p, tt)
All-append P (x ∷ ms) m a p = (a.0, All-append P ms m a.1 p)

pub All-map :
    (P Q : Message → Type 0) (ms : List Message) → ((m : Message) → P m → Q m) → All P ms → All Q ms
All-map P Q [] f a = tt
All-map P Q (m ∷ ms) f a = (f m a.0, All-map P Q ms f a.1)

pub find_message-hash :
    (h : ℕ) (ms : List Message) (m : Message) → find_message h ms ≡ some m → m.msg_hash ≡ h
unfolding find_message
find_message-hash h [] m e = absurd (cc)
find_message-hash h (x ∷ ms) m e = elim (Bool-cases (x.msg_hash == h)) [
  | inl t ↦
      let same : x ≡ m = some_inj (rw t at e) in
      ap (λ (m : Message). m.msg_hash) (sym same) ∙ ground arith
  | inr f ↦ find_message-hash h ms m (rw f at e)
]

pub find_message-append :
    (h : ℕ) (ms : List Message) (m x : Message)
    → find_message h ms ≡ some x
    → find_message h (ms ++ m ∷ []) ≡ some x
unfolding find_message
find_message-append h [] m x e = absurd (cc)
find_message-append h (y ∷ ms) m x e = ground (arith, find_message-append h ms m x, e)

-- The row that is changed is the one that was found.
pub change_message-All :
    (P : Message → Type 0) (h : ℕ) (fields : Message → Message) (ms : List Message) (m : Message)
    → find_message h ms ≡ some m
    → P (fields m)
    → All P ms
    → All P (change_message h fields ms)
unfolding find_message change_message
change_message-All P h fields [] m e p a = tt
change_message-All P h fields (x ∷ ms) m e p a = elim (Bool-cases (x.msg_hash == h)) [
  | inl t ↦
      let same : x ≡ m = some_inj (rw t at e) in
      let p' : P (fields x) = subst (λ (y : Message). P (fields y)) (sym same) p in rw t (p', a.1)
  | inr f ↦
      let e' : find_message h ms ≡ some m = rw f at e in
      rw f (a.0, change_message-All P h fields ms m e' p a.1)
]

-- A target that a handler accepts is the row of its hash, and belongs to the channel.
pub require-found :
    (t : Tables) (reply : Option ℕ) (channel : ℕ) (m : Message)
    → require_target_in_channel t reply channel ≡ ok m
    → (find_message m.msg_hash t.messages ≡ some m)
      × (m.channel_id ≡ channel)
      × (reply ≡ some m.msg_hash)
unfolding require_target_in_channel
require-found t none channel m e = absurd (cc)
require-found t (some h) channel m e = elim (Option-cases (find_message h t.messages)) [
  | inl f ↦ let e' : in_channel channel none ≡ ok m = rw f at e in absurd (cc)
  | inr (x, f) ↦ elim (Bool-cases (x.channel_id == channel)) [
    | inl c ↦
        let e' : ok x ≡ ok m = rw (f, c) at e in
        let same : x ≡ m = cc in
        let hash = find_message-hash h t.messages x f in
        subst
          (λ (y : Message).
            (find_message y.msg_hash t.messages ≡ some y)
            × (y.channel_id ≡ channel)
            × (some h ≡ some y.msg_hash))
          same
          (ap (λ (k : ℕ). find_message k t.messages) hash ∙ f, ground arith, ap some (sym hash))
    | inr c ↦ let e' : err wrong_channel ≡ ok m = rw (f, c) at e in absurd (cc)
  ]
]

pub find-change_self :
    (h : ℕ) (fields : Message → Message) (ms : List Message) (m : Message)
    → find_message h ms ≡ some m
    → (fields m).msg_hash ≡ h
    → find_message h (change_message h fields ms) ≡ some (fields m)
unfolding find_message change_message
find-change_self h fields [] m e k = absurd (cc)
find-change_self h fields (x ∷ ms) m e k = elim (Bool-cases (x.msg_hash == h)) [
  | inl t ↦
      let same : x ≡ m = some_inj (rw t at e) in
      let k' : (fields x).msg_hash ≡ h = ap (λ (y : Message). (fields y).msg_hash) same ∙ k in
      let test : ((fields x).msg_hash == h) ≡ true = ground arith in
      rw (t, test) (ap (λ (y : Message). some (fields y)) same)
  | inr f ↦
      let e' : find_message h ms ≡ some m = rw f at e in
      rw (f, f) (find-change_self h fields ms m e' k)
]

pub find-change_other :
    (h k : ℕ) (fields : Message → Message) (ms : List Message) (m : Message)
    → find_message k ms ≡ some m
    → (fields m).msg_hash ≡ k
    → h ≢ k
    → find_message h (change_message k fields ms) ≡ find_message h ms
unfolding find_message change_message
find-change_other h k fields [] m e same n = refl
find-change_other h k fields (x ∷ ms) m e same n = elim (Bool-cases (x.msg_hash == k)) [
  | inl t ↦
      let one : x ≡ m = some_inj (rw t at e) in
      let hash : (fields x).msg_hash ≡ k = ap (λ (y : Message). (fields y).msg_hash) one ∙ same in
      let miss : ((fields x).msg_hash == h) ≡ false = ground (arith, hash, n) in
      let miss' : (x.msg_hash == h) ≡ false = ground (arith, n) in rw (t, miss, miss') refl
  | inr f ↦
      let e' : find_message k ms ≡ some m = rw f at e in
      rw f (
        ap (λ (o : Option Message). if x.msg_hash == h then some x else o)
          (find-change_other h k fields ms m e' same n))
]

pub All-find :
    (P : Message → Type 0) (h : ℕ) (ms : List Message) (m : Message)
    → find_message h ms ≡ some m
    → All P ms
    → P m
unfolding find_message
All-find P h [] m e a = absurd (cc)
All-find P h (x ∷ ms) m e a = elim (Bool-cases (x.msg_hash == h)) [
  | inl t ↦ subst P (some_inj (rw t at e)) a.0
  | inr f ↦ All-find P h ms m (rw f at e) a.1
]
