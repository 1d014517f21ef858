-- ===== src/Federation/Pusher/SealedRows.antt =====
-- src/hokora/federation/pusher.py: what a pusher sends of a sealed channel.
use hokora.Base.{ℕ, ◌≡◌, refl, Bool, true, Option, none, some, List, [], ◌∷◌}
use hokora.Bytes.{Bytes}
use hokora.Text.{Text}
use hokora.Result.{ok}
use hokora.Db.{Channel, Message, Tables}
use hokora.Db.Messages.{find_channel}
use hokora.Security.SealedInvariant.{Stored, validate_sealed, validate_mirror_payload}
use hokora.Federation.Auth.{Identities}
use hokora.Federation.PushMessages.{
  PushedMessage, Peer, PushState, payload_for, handle_push_messages,
}
use hokora.Federation.PushMessages.Steps.{
  Each, same, adds, Steps, nothing, also, handle_push_messages-Steps,
}
use hokora.Federation.Pusher.{encode_all}

abbrev NoCiphertext : PushedMessage → Type 0
NoCiphertext m = m.encrypted_body ≡ none

encode_all-NoCiphertext :
    (recall : ℕ → Option Bytes) (signed : ℕ → Option Bytes × Option Bytes) (node : ℕ)
    (rows : List (ℕ × Message))
    → Each NoCiphertext (encode_all recall signed node rows)
unfolding encode_all
encode_all-NoCiphertext recall signed node [] = tt
encode_all-NoCiphertext recall signed node (row ∷ rows) =
    (refl, encode_all-NoCiphertext recall signed node rows)

sealed_needs :
    (row : Channel) (body : Option Text) (encrypted iv : Option Bytes) (epoch : Option ℕ)
    (stored : Stored)
    → row.sealed ≡ true
    → encrypted ≡ none
    → payload_for (some row) body encrypted iv epoch ≡ ok stored
    → ⊥
unfolding validate_mirror_payload
sealed_needs row (some text) encrypted iv epoch stored is_sealed bare h =
    let h' : validate_sealed (some text) encrypted iv epoch ≡ ok stored = rw is_sealed at h in cc
sealed_needs row none encrypted iv epoch stored is_sealed bare h =
    let h' : validate_sealed none none iv epoch ≡ ok stored = rw (is_sealed, bare) at h in cc

Steps-unchanged :
    {k : Identities} {require_signed : Bool} {channel node now : ℕ} {row : Channel} {t u : Tables}
    → row.sealed ≡ true
    → Steps NoCiphertext k require_signed channel (some row) node now t u
    → u ≡ t
Steps-unchanged is_sealed nothing = refl
Steps-unchanged is_sealed (also steps same) = Steps-unchanged is_sealed steps
Steps-unchanged {row = row} is_sealed (also steps (adds m current stored bare c f b h)) = absurd (
    sealed_needs row m.body m.encrypted_body m.encryption_nonce m.encryption_epoch stored is_sealed
      bare h)

-- A push that the pusher encoded, of whatever rows and whatever keys and signatures it knows, changes
-- none of the tables of a peer where the channel is sealed: the ciphertexts are not sent along.
pub handle_push_messages-encode_all :
    (recall : ℕ → Option Bytes) (signed : ℕ → Option Bytes × Option Bytes)
    (rows : List (ℕ × Message)) (k : Identities) (require_signed : Bool) (peers : List Peer)
    (channel node now : ℕ) (s : PushState) (row : Channel)
    → find_channel channel s.tables.channels ≡ some row
    → row.sealed ≡ true
    → (handle_push_messages k require_signed peers
        (some channel)
        (encode_all recall signed node rows)
        (some node)
        now
        s).1.tables
      ≡ s.tables
handle_push_messages-encode_all recall signed rows k require_signed peers channel node now s row c
      is_sealed =
    let messages = encode_all recall signed node rows in
    let bare = encode_all-NoCiphertext recall signed node rows in
    let steps : Steps NoCiphertext k require_signed channel (some row) node now s.tables
        (handle_push_messages k require_signed peers (some channel) messages (some node) now
          s).1.tables =
      rw c at (
        handle_push_messages-Steps NoCiphertext k require_signed peers channel messages node now s
          bare) in
    Steps-unchanged is_sealed steps
