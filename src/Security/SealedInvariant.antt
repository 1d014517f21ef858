-- ===== src/Security/SealedInvariant.antt =====
-- src/hokora/security/sealed_invariant.py: the two gates in front of the table of messages.
use hokora.Base.{ℕ, Option, none, some, if◌then◌else◌}
use hokora.Base.Keys.{number_key}
use hokora.Bytes.{Bytes}
use hokora.Text.{Text, utf8}
use hokora.Result.{Result, ok, err}
use hokora.Db.{Channel}
use hokora.Security.Sealed.{
  needs_ciphertext, Gcm, SealedChannelError, SealedChannelManager, encrypt,
}

-- What is stored of a body: body, ciphertext, nonce and epoch.
pub record Stored : Type 0 where
  pub body : Option Text
  pub encrypted_body : Option Bytes
  pub encryption_nonce : Option Bytes
  pub encryption_epoch : Option ℕ

abbrev pub plain : Option Text → Stored
plain text = record {
  body = text;
  encrypted_body = none;
  encryption_nonce = none;
  encryption_epoch = none;
}

abbrev pub ciphertext_only : Bytes → Bytes → ℕ → Stored
ciphertext_only ciphertext nonce epoch = record {
  body = none;
  encrypted_body = some ciphertext;
  encryption_nonce = some nonce;
  encryption_epoch = some epoch;
}

abbrev pub sealed_result : Result SealedChannelError (Bytes × Bytes × ℕ) → Option Stored
sealed_result (err e) = none
sealed_result (ok (nonce, ciphertext, epoch)) = some (ciphertext_only ciphertext nonce epoch)

abbrev pub seal_text : Gcm → Option SealedChannelManager → ℕ → Bytes → Option Text → Option Stored
seal_text g manager channel nonce none = some (plain none)
seal_text g none channel nonce (some text) = none
seal_text g (some m) channel nonce (some text) =
    sealed_result (encrypt g m channel nonce (utf8 text))

-- `none` is PermissionDenied; the text of an empty body is `none`.
unfoldable pub seal_for_origin :
    Gcm → Option SealedChannelManager → Channel → Bytes → Option Text → Option Stored
seal_for_origin g manager channel nonce text =
    if channel.sealed then seal_text g manager channel.id nonce text else some (plain text)

abbrev pub validate_sealed :
    Option Text → Option Bytes → Option Bytes → Option ℕ → Result SealedChannelError Stored
validate_sealed (some body) encrypted iv epoch = err needs_ciphertext
validate_sealed none none iv epoch = err needs_ciphertext
validate_sealed none (some ciphertext) iv epoch = ok (record {
  body = none;
  encrypted_body = some ciphertext;
  encryption_nonce = iv;
  encryption_epoch = epoch;
})

unfoldable pub validate_mirror_payload :
    Channel
    → Option Text
    → Option Bytes
    → Option Bytes
    → Option ℕ
    → Result SealedChannelError Stored
validate_mirror_payload channel body encrypted nonce epoch =
    if channel.sealed then validate_sealed body encrypted nonce epoch else ok (plain body)
