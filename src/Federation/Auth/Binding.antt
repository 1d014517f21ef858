-- ===== src/Federation/Auth/Binding.antt =====
-- src/hokora/federation/auth.py: what an accepted message proves of its sender.
use hokora.Base.{ℕ, ◌≡◌, refl, true, Option, none, some, length, drop, arith}
use hokora.Bytes.{Bytes}
use hokora.Security.Verification.{verify_ed25519_signature}
use hokora.Federation.Auth.{Identities, reject_reason}

-- The key of a sender: 64 bytes that hash to it, whose Ed25519 half verifies the signature.
pub record Signed (k : Identities) (sender : ℕ) (key signed_part signature : Bytes) : Type 0 where
  pub size : length key ≡ 64
  pub hashes : k.truncated_hash key ≡ sender
  pub verifies : verify_ed25519_signature k.verify (some (drop 32 key)) signed_part signature ≡ true

pub reject_reason-Signed :
    (k : Identities) (sender : Option ℕ) (key signed_part signature : Option Bytes)
    → reject_reason k true sender key signed_part signature ≡ none
    → (s : ℕ) × (a : Bytes) × (b : Bytes) × (c : Bytes) × (sender ≡ some s) × Signed k s a b c
reject_reason-Signed k none key signed_part signature h = absurd (cc)
reject_reason-Signed k (some s) none signed_part signature h = absurd (ground arith)
reject_reason-Signed k (some s) (some a) none signature h = absurd (ground arith)
reject_reason-Signed k (some s) (some a) (some b) none h = absurd (ground arith)
reject_reason-Signed k (some s) (some a) (some b) (some c) h = (
  s,
  a,
  b,
  c,
  refl,
  record { size = ground arith; hashes = ground arith; verifies = ground arith },
)
