-- ===== src/Federation/PushMessages/Sound.antt =====
-- src/hokora/protocol/handlers/federation.py: a push keeps what holds of the tables.
use hokora.Base.{ℕ, ◌≡◌, refl, Bool, Option, some, List}
use hokora.Bytes.{Bytes}
use hokora.Text.{Text}
use hokora.Result.{ok}
use hokora.Db.{Channel, Tables}
use hokora.Db.Messages.{find_channel}
use hokora.Security.SealedInvariant.{Stored, validate_mirror_payload}
use hokora.Security.Sealed.Gates.{validate_mirror_payload_lem}
use hokora.Core.Processor.Writes.{Gated, Writes, nothing, also, inserts_numbered}
use hokora.Core.Processor.Secrecy.{raise-Gated}
use hokora.Federation.Auth.{Identities}
use hokora.Federation.PushMessages.{
  PushedMessage, Peer, PushState, payload_for, handle_push_messages,
}
use hokora.Federation.PushMessages.Steps.{
  same, adds, Steps, handle_push_messages-Steps, Any, Each-Any,
}

pub payload-Gated :
    (rows : List Channel) (channel : ℕ) (body : Option Text) (encrypted iv : Option Bytes)
    (epoch : Option ℕ) (stored : Stored)
    → payload_for (find_channel channel rows) body encrypted iv epoch ≡ ok stored
    → Gated rows channel stored.body
payload-Gated rows channel body encrypted iv epoch stored h ch found is_sealed =
    let h' : validate_mirror_payload ch body encrypted iv epoch ≡ ok stored = rw found at h in
    ((validate_mirror_payload_lem ch body encrypted iv epoch stored h').0 is_sealed).0

-- What may stand in a row of the channel may still.
abbrev KeepsGates : ℕ → Tables → Tables → Type 0
KeepsGates channel t u =
    (text : Option Text) → Gated t.channels channel text → Gated u.channels channel text

Steps-Writes :
    {k : Identities} {require_signed : Bool} {channel node now : ℕ} {found : Option Channel}
    {t u : Tables}
    → Steps Any k require_signed channel found node now t u
    → ((body : Option Text) (encrypted iv : Option Bytes) (epoch : Option ℕ) (stored : Stored)
        → payload_for found body encrypted iv epoch ≡ ok stored
        → Gated t.channels channel stored.body)
    → Writes node channel t u × KeepsGates channel t u
Steps-Writes Steps.nothing gates = (nothing, λ text g. g)
Steps-Writes (Steps.also steps same) gates = Steps-Writes steps gates
Steps-Writes {channel = channel} (Steps.also steps (adds m row stored given c f b h)) gates =
    let (writes, keeps) = Steps-Writes steps gates in
    let gated = gates m.body m.encrypted_body m.encryption_nonce m.encryption_epoch stored h in
    (
      also writes (inserts_numbered _ row c f refl refl (keeps stored.body gated)),
      λ text g. raise-Gated _ channel channel text (keeps text g),
    )

pub handle_push_messages-Writes :
    (k : Identities) (require_signed : Bool) (peers : List Peer) (channel : ℕ)
    (messages : List PushedMessage) (node now : ℕ) (s : PushState)
    → Writes node channel s.tables
        (handle_push_messages k require_signed peers
          (some channel)
          messages
          (some node)
          now
          s).1.tables
handle_push_messages-Writes k require_signed peers channel messages node now s =
    (Steps-Writes
      (handle_push_messages-Steps Any k require_signed peers channel messages node now s
        (Each-Any messages))
      (payload-Gated s.tables.channels channel)).0
