-- ===== src/Security/Sealed/Gates.antt =====
-- src/hokora/security/sealed_invariant.py: no text of a sealed channel gets past a gate.
use mathlib.Core.Path.{subst}
use hokora.Base.{
  ℕ, ◌≡◌, ◌≢◌, refl, sym, true, false, Option, none, some, inl, inr, Bool-cases, some_inj,
}
use hokora.Base.Keys.{number_key}
use hokora.Bytes.{Bytes}
use hokora.Text.{Text, utf8}
use hokora.Result.{Result, ok, err}
use hokora.Db.{Channel}
use hokora.Security.Sealed.{Gcm, SealedChannelManager, SealedChannelError, encrypt}
use hokora.Security.SealedInvariant.{
  Stored, plain, ciphertext_only, sealed_result, seal_text, seal_for_origin, validate_sealed,
  validate_mirror_payload,
}

-- No text is stored, and if there was one its ciphertext is.
abbrev pub IsSecret : Option Text → Stored → Type 0
IsSecret text s = (s.body ≡ none) × (text ≢ none → s.encrypted_body ≢ none)

sealed_result-IsSecret :
    (text : Option Text) (r : Result SealedChannelError (Bytes × Bytes × ℕ)) (s : Stored)
    → sealed_result r ≡ some s
    → IsSecret text s
sealed_result-IsSecret text (err e) s h = absurd (cc)
sealed_result-IsSecret text (ok (nonce, ciphertext, epoch)) s h =
    let same : ciphertext_only ciphertext nonce epoch ≡ s = some_inj h in
    subst (IsSecret text) same (refl, λ n e. cc)

seal_text-IsSecret :
    (g : Gcm) (manager : Option SealedChannelManager) (channel : ℕ) (nonce : Bytes)
    (text : Option Text) (s : Stored)
    → seal_text g manager channel nonce text ≡ some s
    → IsSecret text s
seal_text-IsSecret g manager channel nonce none s h =
    let same : plain none ≡ s = some_inj h in subst (IsSecret none) same (refl, λ n e. n refl)
seal_text-IsSecret g none channel nonce (some text) s h = absurd (cc)
seal_text-IsSecret g (some m) channel nonce (some text) s h =
    sealed_result-IsSecret (some text) (encrypt g m channel nonce (utf8 text)) s h

-- What the gate of local writes lets through for a sealed channel has no text, and has the
-- ciphertext of a text that came in; for any other channel the text is stored as it came.
pub seal_for_origin_lem :
    (g : Gcm) (manager : Option SealedChannelManager) (channel : Channel) (nonce : Bytes)
    (text : Option Text) (s : Stored)
    → seal_for_origin g manager channel nonce text ≡ some s
    → (channel.sealed ≡ true → IsSecret text s) × (channel.sealed ≡ false → s ≡ plain text)
unfolding seal_for_origin
seal_for_origin_lem g manager channel nonce text s h = elim (Bool-cases channel.sealed) [
  | inl e ↦
      let h' : seal_text g manager channel.id nonce text ≡ some s = rw e at h in
      (λ p. seal_text-IsSecret g manager channel.id nonce text s h', λ p. absurd (cc))
  | inr e ↦
      let h' : some (plain text) ≡ some s = rw e at h in (λ p. absurd (cc), λ p. sym (some_inj h'))
]

validate_sealed-IsSecret :
    (body : Option Text) (encrypted iv : Option Bytes) (epoch : Option ℕ) (s : Stored)
    → validate_sealed body encrypted iv epoch ≡ ok s
    → (s.body ≡ none) × (s.encrypted_body ≢ none) × (s.encrypted_body ≡ encrypted)
validate_sealed-IsSecret (some body) encrypted iv epoch s h = absurd (cc)
validate_sealed-IsSecret none none iv epoch s h = absurd (cc)
validate_sealed-IsSecret none (some ciphertext) iv epoch s h =
    let made : Stored = record {
      body = none;
      encrypted_body = some ciphertext;
      encryption_nonce = iv;
      encryption_epoch = epoch;
    } in
    let same : made ≡ s = cc in
    subst
      (λ (s : Stored).
        (s.body ≡ none) × (s.encrypted_body ≢ none) × (s.encrypted_body ≡ some ciphertext))
      same (refl, λ e. cc, refl)

-- A pushed row gets into a sealed channel only with a ciphertext, which is stored as it came and
-- without a text; into any other channel with its text, without what else was pushed.
pub validate_mirror_payload_lem :
    (channel : Channel) (body : Option Text) (encrypted iv : Option Bytes) (epoch : Option ℕ)
    (s : Stored)
    → validate_mirror_payload channel body encrypted iv epoch ≡ ok s
    → (channel.sealed ≡ true
        → (s.body ≡ none) × (s.encrypted_body ≢ none) × (s.encrypted_body ≡ encrypted))
      × (channel.sealed ≡ false → s ≡ plain body)
unfolding validate_mirror_payload
validate_mirror_payload_lem channel body encrypted iv epoch s h = elim (Bool-cases channel.sealed) [
  | inl e ↦
      let h' : validate_sealed body encrypted iv epoch ≡ ok s = rw e at h in
      (λ p. validate_sealed-IsSecret body encrypted iv epoch s h', λ p. absurd (cc))
  | inr e ↦ let h' : ok (plain body) ≡ ok s = rw e at h in (λ p. absurd (cc), λ p. cc)
]
