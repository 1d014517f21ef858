-- ===== src/Security/Sealed/Retained.antt =====
-- src/hokora/security/sealed.py: the keys that one rotation keeps.
use mathlib.Core.Path.{subst}
use mathlib.Core.List.{append_assoc}
use hokora.Base.{
  ℕ, ◌+◌, ◌<◌, ◌≡◌, ◌≢◌, refl, sym, ◌∙◌, ap, Option, none, some, List, [], ◌∷◌, ◌++◌, arith, ◌==◌,
  length, length-append, if◌then◌else◌, inl, inr, Bool-cases, Option-cases,
}
use hokora.Base.Keys.{number_key}
use hokora.Bytes.{Bytes}
use hokora.Dict.{Dict, lookup, lookup_or, insert}
use hokora.Dict.Laws.{lookup-insert}
use hokora.Security.Sealed.{
  KeyInfo, SealedChannelManager, epoch_of, generate_key, find_epoch, trimmed, retire, rotate_key,
}
use hokora.Security.Sealed.Histories.{Below, Below-le, Below-append, Below-trimmed, trimmed_keeps}

abbrev pub history : SealedChannelManager → ℕ → List KeyInfo
history m channel = lookup_or channel [] m.previous_keys

-- The epochs of a channel count up: the retained ones lie below the current one.
abbrev pub IsNumbered : SealedChannelManager → ℕ → Type 0
IsNumbered m channel = Below (epoch_of (lookup channel m.keys)) (history m channel)

retire_keys :
    (m : SealedChannelManager) (channel : ℕ) (o : Option KeyInfo)
    → (retire m channel o).keys ≡ m.keys
retire_keys m channel none = refl
retire_keys m channel (some info) = refl

insert_history :
    (k j : ℕ) (v : List KeyInfo) (d : Dict ℕ (List KeyInfo))
    → lookup_or j [] (insert k v d) ≡ (if k == j then v else lookup_or j [] d)
insert_history k j v d = ground (arith, lookup-insert k j v d)

rotate_keys :
    (m : SealedChannelManager) (channel : ℕ) (key : Bytes) (other : ℕ)
    → lookup other (rotate_key m channel key).1.keys ≡ (
        if channel == other
        then some (record { key = key; epoch = epoch_of (lookup channel m.keys) + 1 })
        else lookup other m.keys)
unfolding rotate_key generate_key
rotate_keys m channel key other =
    rw (retire_keys m channel (lookup channel m.keys)) (lookup-insert channel other _ m.keys)

rotate_history :
    (m : SealedChannelManager) (channel : ℕ) (key : Bytes) (info : KeyInfo)
    → lookup channel m.keys ≡ some info
    → history (rotate_key m channel key).1 channel ≡ trimmed (history m channel ++ info ∷ [])
unfolding rotate_key generate_key
rotate_history m channel key info h =
    rw h (insert_history channel channel _ m.previous_keys ∙ ground arith)

rotate_history-none :
    (m : SealedChannelManager) (channel : ℕ) (key : Bytes)
    → lookup channel m.keys ≡ none
    → history (rotate_key m channel key).1 channel ≡ history m channel
unfolding rotate_key generate_key
rotate_history-none m channel key h = rw h refl

rotate_history_other :
    (m : SealedChannelManager) (channel : ℕ) (key : Bytes) (other : ℕ)
    → channel ≢ other
    → history (rotate_key m channel key).1 other ≡ history m other
unfolding rotate_key generate_key
rotate_history_other m channel key other n = elim (Option-cases (lookup channel m.keys)) [
  | inl e ↦ rw e refl
  | inr (info, e) ↦ rw e (insert_history channel other _ m.previous_keys ∙ ground (arith, n))
]

rotate_keys_self :
    (m : SealedChannelManager) (channel : ℕ) (key : Bytes)
    → lookup channel (rotate_key m channel key).1.keys
      ≡ some (record { key = key; epoch = epoch_of (lookup channel m.keys) + 1 })
rotate_keys_self m channel key = rotate_keys m channel key channel ∙ ground arith

rotate_self-IsNumbered :
    (m : SealedChannelManager) (channel : ℕ) (key : Bytes)
    → IsNumbered m channel
    → IsNumbered (rotate_key m channel key).1 channel
rotate_self-IsNumbered m channel key b = elim (Option-cases (lookup channel m.keys)) [
  | inl h ↦
      let b' : Below 0 (history m channel) = rw h at b in
      rw (rotate_keys_self m channel key, rotate_history-none m channel key h, h)
        (Below-le 0 1 (history m channel) (omega arith) b')
  | inr (info, h) ↦
      let b' : Below info.epoch (history m channel) = rw h at b in
      let larger = Below-le info.epoch (info.epoch + 1) (history m channel) (omega arith) b' in
      rw (rotate_keys_self m channel key, rotate_history m channel key info h, h)
        (Below-trimmed (info.epoch + 1) (history m channel ++ info ∷ [])
          (Below-append (info.epoch + 1) (history m channel) info larger (omega arith)))
]

pub rotate-IsNumbered :
    (m : SealedChannelManager) (channel : ℕ) (key : Bytes) (other : ℕ)
    → IsNumbered m other
    → IsNumbered (rotate_key m channel key).1 other
rotate-IsNumbered m channel key other b = elim (Bool-cases (channel == other)) [
  | inr e ↦
      let n : channel ≢ other = ground arith in
      rw (rotate_keys m channel key other, e, rotate_history_other m channel key other n) b
  | inl e ↦
      let same : other ≡ channel = ground arith in
      subst (λ (c : ℕ). IsNumbered (rotate_key m channel key).1 c) (sym same)
        (rotate_self-IsNumbered m channel key (subst (λ (c : ℕ). IsNumbered m c) same b))
]

-- The key of an epoch is the current one, or has fewer than `n` newer retained ones behind it.
pub data Retains (m : SealedChannelManager) (channel : ℕ) (info : KeyInfo) (n : ℕ) : Type 0 where
  current :
      lookup channel m.keys ≡ some info
      → find_epoch info.epoch (history m channel) ≡ none
      → Retains m channel info n
  retained :
      (now : KeyInfo) (before after : List KeyInfo)
      → lookup channel m.keys ≡ some now
      → info.epoch < now.epoch
      → history m channel ≡ before ++ info ∷ after
      → find_epoch info.epoch before ≡ none
      → length after < n
      → Retains m channel info n

-- A rotation of the channel puts one more behind it.
pub rotate_self-Retains :
    (m : SealedChannelManager) (channel : ℕ) (key : Bytes) (info : KeyInfo) (n : ℕ)
    → n < 5
    → Retains m channel info n
    → Retains (rotate_key m channel key).1 channel info (n + 1)
rotate_self-Retains m channel key info n l (current h absent) =
    let kept = trimmed_keeps info (history m channel) [] absent (omega arith) in
    retained (record { key = key; epoch = epoch_of (lookup channel m.keys) + 1 }) kept.0 []
      (rotate_keys_self m channel key) (rw h (omega arith))
      (rotate_history m channel key info h ∙ kept.1) kept.2 (omega arith)
rotate_self-Retains m channel key info n l (retained now before after h less shape absent k) =
    let longer = length-append after (now ∷ []) in
    let kept = trimmed_keeps info before (after ++ now ∷ []) absent (omega (arith, longer)) in
    let moved : history m channel ++ now ∷ [] ≡ before ++ info ∷ (after ++ now ∷ []) =
      simp (shape, append_assoc) in
    retained (record { key = key; epoch = epoch_of (lookup channel m.keys) + 1 }) kept.0
      (after ++ now ∷ []) (rotate_keys_self m channel key) (rw h (omega arith))
      (rotate_history m channel key now h ∙ ap trimmed moved ∙ kept.1) kept.2
      (omega (arith, longer))

pub rotate_other-Retains :
    (m : SealedChannelManager) (channel : ℕ) (key : Bytes) (other : ℕ) (info : KeyInfo) (n : ℕ)
    → channel ≢ other
    → Retains m other info n
    → Retains (rotate_key m channel key).1 other info n
rotate_other-Retains m channel key other info n d (current h absent) =
    let kept = rotate_keys m channel key other ∙ ground (arith, d) in
    current (kept ∙ h) (rw (rotate_history_other m channel key other d) absent)
rotate_other-Retains m channel key other info n d
      (retained now before after h less shape absent k) =
    let kept = rotate_keys m channel key other ∙ ground (arith, d) in
    retained now before after (kept ∙ h) less (rotate_history_other m channel key other d ∙ shape)
      absent k
