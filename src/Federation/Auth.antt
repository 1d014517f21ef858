-- ===== src/Federation/Auth.antt =====
-- src/hokora/federation/auth.py: the check that binds a pushed message to the key of its sender. A
-- sender is a number that stands for the string of its hash. Key and signature fields that are
-- empty are `none`.
pub mod Binding
use hokora.Base.{
  ℕ, ◌+◌, Bool, true, false, not, Option, none, some, String, ◌==◌, length, drop, if◌then◌else◌,
}
use hokora.Base.Keys.{text_key}
use hokora.Bytes.{Bytes}
use hokora.Dict.{Dict, insert, lookup_or}
use hokora.Security.Verification.{verify_ed25519_signature}

abbrev pub ed25519_public_key_size : ℕ
ed25519_public_key_size = 32

abbrev pub rns_public_key_size : ℕ
rns_public_key_size = 64

abbrev pub identity_hash_hex_length : ℕ
identity_hash_hex_length = 32

-- `RNS.Identity.truncated_hash` in hex, the length of a hash string, and whether Ed25519 verifies.
pub record Identities : Type 0 where
  pub truncated_hash : Bytes → ℕ
  pub hash_length : ℕ → ℕ
  pub verify : Bytes → Bytes → Bytes → Bool

pub data Rejection : Type 0 where
  missing_sender malformed_sender missing_pubkey malformed_pubkey : Rejection
  binding_mismatch bad_signature missing_signature : Rejection

abbrev pub label : Rejection → String
label missing_sender = "malformed"
label malformed_sender = "malformed"
label missing_pubkey = "missing_pubkey"
label malformed_pubkey = "malformed"
label binding_mismatch = "binding_mismatch"
label bad_signature = "bad_signature"
label missing_signature = "missing_signature"

unfoldable pub record_binding_rejection : Dict String ℕ → Rejection → Dict String ℕ
record_binding_rejection counts why = insert (label why) (lookup_or (label why) 0 counts + 1) counts

abbrev pub check_signature :
    Identities → Bool → Bytes → Option Bytes → Option Bytes → Option Rejection
check_signature k require_signed key (some signed_part) (some signature) =
    if verify_ed25519_signature k.verify (some (drop ed25519_public_key_size key)) signed_part
      signature
    then none
    else some bad_signature
check_signature k require_signed key (some signed_part) none =
    if require_signed then some missing_signature else none
check_signature k require_signed key none signature =
    if require_signed then some missing_signature else none

abbrev pub check_key :
    Identities → Bool → ℕ → Option Bytes → Option Bytes → Option Bytes → Option Rejection
check_key k require_signed sender none signed_part signature =
    if require_signed then some missing_pubkey else none
check_key k require_signed sender (some key) signed_part signature =
    if not (length key == rns_public_key_size)
    then some malformed_pubkey
    else if not (k.truncated_hash key == sender)
    then some binding_mismatch
    else check_signature k require_signed key signed_part signature

abbrev pub reject_reason :
    Identities → Bool → Option ℕ → Option Bytes → Option Bytes → Option Bytes → Option Rejection
reject_reason k require_signed none key signed_part signature = some missing_sender
reject_reason k require_signed (some sender) key signed_part signature =
    if not (k.hash_length sender == identity_hash_hex_length)
    then some malformed_sender
    else check_key k require_signed sender key signed_part signature

abbrev pub counted_reason : Dict String ℕ → Option Rejection → Option Rejection × Dict String ℕ
counted_reason counts none = (none, counts)
counted_reason counts (some why) = (some why, record_binding_rejection counts why)

-- `none` is acceptance.
unfoldable pub verify_sender_binding :
    Identities
    → Dict String ℕ
    → Option ℕ
    → Option Bytes
    → Option Bytes
    → Option Bytes
    → Bool
    → Option Rejection × Dict String ℕ
verify_sender_binding k counts sender key signed_part signature require_signed =
    counted_reason counts (reject_reason k require_signed sender key signed_part signature)
