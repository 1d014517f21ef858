-- ===== src/Security/Sealed/Rotations.antt =====
-- src/hokora/security/sealed.py: what was sealed stays readable over five rotations.
use mathlib.Core.Path.{subst}
use hokora.Base.{
  ℕ, suc, ◌+◌, ◌≤◌, ◌≡◌, refl, sym, true, false, none, some, List, [], ◌∷◌, arith, ◌==◌,
  if◌then◌else◌, inl, inr, Bool-cases, Option-cases,
}
use hokora.Base.Keys.{number_key}
use hokora.Bytes.{Bytes}
use hokora.Dict.{lookup}
use hokora.Result.{ok}
use hokora.Security.Sealed.{
  Gcm, KeyInfo, SealedChannelManager, no_keys, encrypt_with, encrypt, decrypt, rotate_key,
}
use hokora.Security.Sealed.Histories.{Below, Below-find, find_epoch-append}
use hokora.Security.Sealed.Retained.{
  current, retained, history, IsNumbered, rotate-IsNumbered, Retains, rotate_self-Retains,
  rotate_other-Retains,
}

-- Rotations of several channels, one after the other, with the keys that are drawn.
unfoldable pub rotate_all : SealedChannelManager → List (ℕ × Bytes) → SealedChannelManager
rotate_all m [] = m
rotate_all m ((channel, key) ∷ rest) = rotate_all (rotate_key m channel key).1 rest

-- How many of them are of one channel.
unfoldable pub rotations_of : ℕ → List (ℕ × Bytes) → ℕ
rotations_of channel [] = 0
rotations_of channel ((c, key) ∷ rest) =
    if c == channel then suc (rotations_of channel rest) else rotations_of channel rest

rotate_all-IsNumbered :
    (channel : ℕ) (m : SealedChannelManager) (rest : List (ℕ × Bytes))
    → IsNumbered m channel
    → IsNumbered (rotate_all m rest) channel
unfolding rotate_all
rotate_all-IsNumbered channel m [] b = b
rotate_all-IsNumbered channel m ((c, key) ∷ rest) b =
    rotate_all-IsNumbered channel (rotate_key m c key).1 rest (rotate-IsNumbered m c key channel b)

Retains-le :
    (m : SealedChannelManager) (channel : ℕ) (info : KeyInfo) (n k : ℕ)
    → n ≤ k
    → Retains m channel info n
    → Retains m channel info k
Retains-le m channel info n k l (current h absent) = current h absent
Retains-le m channel info n k l (retained now before after h less shape absent few) =
    retained now before after h less shape absent (omega arith)

rotate_all-Retains :
    (channel : ℕ) (info : KeyInfo) (n : ℕ) (m : SealedChannelManager) (rest : List (ℕ × Bytes))
    → n + rotations_of channel rest ≤ 5
    → Retains m channel info n
    → Retains (rotate_all m rest) channel info 5
unfolding rotate_all rotations_of
rotate_all-Retains channel info n m [] l r = Retains-le m channel info n 5 (omega arith) r
rotate_all-Retains channel info n m ((c, key) ∷ rest) l r = elim (Bool-cases (c == channel)) [
  | inl e ↦
      let same : channel ≡ c = ground arith in
      rotate_all-Retains channel info (n + 1) (rotate_key m c key).1 rest (ground arith) (
        subst (λ (x : ℕ). Retains (rotate_key m c key).1 x info (n + 1)) (sym same)
          (rotate_self-Retains m c key info n (ground arith)
            (subst (λ (x : ℕ). Retains m x info n) same r)))
  | inr e ↦
      rotate_all-Retains channel info n (rotate_key m c key).1 rest (ground arith)
        (rotate_other-Retains m c key channel info n (ground arith) r)
]

-- A retained key opens what it sealed.
decrypt-Retains :
    (g : Gcm) (m : SealedChannelManager) (channel : ℕ) (info : KeyInfo) (nonce text : Bytes)
    → Retains m channel info 5
    → ((k n p a : Bytes) → g.gcm_decrypt k n (g.gcm_encrypt k n p a) a ≡ some p)
    → decrypt g m channel nonce
        (g.gcm_encrypt info.key nonce text (g.encode_id channel))
        (some info.epoch)
      ≡ ok text
unfolding decrypt
decrypt-Retains g m channel info nonce text (current h absent) opens =
    let test : (info.epoch == info.epoch) ≡ true = ground arith in
    rw (h, test, opens info.key nonce text (g.encode_id channel)) refl
decrypt-Retains g m channel info nonce text (retained now before after h less shape absent few)
      opens =
    let test : (info.epoch == now.epoch) ≡ false = ground arith in
    rw
      (
        h,
        test,
        shape,
        find_epoch-append info before after absent,
        opens info.key nonce text (g.encode_id channel),
      )
      refl

empty-IsNumbered : (channel : ℕ) → IsNumbered no_keys channel
unfolding lookup
empty-IsNumbered channel = tt

sealed_under :
    (g : Gcm) (m : SealedChannelManager) (channel : ℕ) (nonce text iv ciphertext : Bytes)
    (epoch : ℕ)
    → IsNumbered m channel
    → encrypt g m channel nonce text ≡ ok (iv, ciphertext, epoch)
    → (info : KeyInfo) × Retains m channel info 0
      × (iv ≡ nonce)
      × (ciphertext ≡ g.gcm_encrypt info.key nonce text (g.encode_id channel))
      × (epoch ≡ info.epoch)
unfolding encrypt
sealed_under g m channel nonce text iv ciphertext epoch b h =
    elim (Option-cases (lookup channel m.keys)) [
      | inl e ↦
          let h' : encrypt_with g none channel nonce text ≡ ok (iv, ciphertext, epoch) =
            rw e at h in
          absurd (cc)
      | inr (info, e) ↦
          let b' : Below info.epoch (history m channel) = rw e at b in
          let h' : encrypt_with g (some info) channel nonce text ≡ ok (iv, ciphertext, epoch) =
            rw e at h in
          (info, current e (Below-find info.epoch (history m channel) b'), cc, cc, cc)
    ]

-- What a manager that began without keys sealed for a channel after some rotations opens to the same
-- text after at most five more rotations of that channel, however often other channels rotate, if
-- the AEAD opens what it seals.
pub decrypt-encrypt :
    (g : Gcm) (earlier later : List (ℕ × Bytes)) (channel : ℕ) (nonce text iv ciphertext : Bytes)
    (epoch : ℕ)
    → ((k n p a : Bytes) → g.gcm_decrypt k n (g.gcm_encrypt k n p a) a ≡ some p)
    → encrypt g (rotate_all no_keys earlier) channel nonce text ≡ ok (iv, ciphertext, epoch)
    → rotations_of channel later ≤ 5
    → decrypt g (rotate_all (rotate_all no_keys earlier) later) channel iv ciphertext (some epoch)
      ≡ ok text
decrypt-encrypt g earlier later channel nonce text iv ciphertext epoch opens sealed few =
    let m = rotate_all no_keys earlier in
    let b : IsNumbered m channel =
      rotate_all-IsNumbered channel no_keys earlier (empty-IsNumbered channel) in
    let (info, kept, same_iv, same_text, same_epoch) =
      sealed_under g m channel nonce text iv ciphertext epoch b sealed in
    rw (same_iv, same_text, same_epoch)
      (decrypt-Retains g (rotate_all m later) channel info nonce text
        (rotate_all-Retains channel info 0 m later (omega arith) kept) opens)
