-- ===== src/Federation/PushMessages/Vouched.antt =====
-- src/hokora/protocol/handlers/federation.py: whose messages a push can store.
use hokora.Base.{ℕ, ◌+◌, ◌≡◌, refl, ◌∙◌, ap, true, Option, some, List, [], ◌∷◌, ◌++◌}
use hokora.Bytes.{Bytes}
use hokora.Db.{Channel, Message, Tables}
use hokora.Core.Processor.Rows.{All, All-append}
use hokora.Federation.Auth.{Identities}
use hokora.Federation.Auth.Binding.{Signed, reject_reason-Signed}
use hokora.Federation.PushMessages.{
  PushedMessage, Peer, PushState, pushed_row, handle_push_messages,
}
use hokora.Federation.PushMessages.Steps.{
  same, adds, Steps, nothing, also, handle_push_messages-Steps, Any, Each-Any,
}

-- A row of the channel from the node, and a signature under a key that hashes to its sender.
abbrev pub Vouched : Identities → ℕ → ℕ → Message → Type 0
Vouched k channel node m =
    (m.channel_id ≡ channel)
    × (m.origin_node ≡ some node)
    × ((s : ℕ) × (a : Bytes) × (b : Bytes) × (c : Bytes) × (m.sender_hash ≡ some s)
        × Signed k s a b c)

-- The messages of one table are those of another and vouched ones behind them.
abbrev pub AddsVouched : Identities → ℕ → ℕ → Tables → Tables → Type 0
AddsVouched k channel node t u =
    (added : List Message) × (u.messages ≡ t.messages ++ added) × All (Vouched k channel node) added

append_nothing : (ms : List Message) → ms ≡ ms ++ []
append_nothing [] = refl
append_nothing (m ∷ ms) = ap (λ (rest : List Message). m ∷ rest) (append_nothing ms)

append_again : (xs ys zs : List Message) → (xs ++ ys) ++ zs ≡ xs ++ (ys ++ zs)
append_again [] ys zs = refl
append_again (x ∷ xs) ys zs = ap (λ (rest : List Message). x ∷ rest) (append_again xs ys zs)

module _ {k : Identities} {channel : ℕ} {found : Option Channel} {node now : ℕ} where
  Steps-Vouched :
      {t u : Tables} → Steps Any k true channel found node now t u → AddsVouched k channel node t u
  Steps-Vouched {t = t} nothing = ([], append_nothing t.messages, tt)
  Steps-Vouched (also steps same) = Steps-Vouched steps
  Steps-Vouched {t = t} (also steps (adds m row stored given c f b h)) =
      let (added, e, vouched) = Steps-Vouched steps in
      let new = pushed_row m channel (row.latest_seq + 1) now stored (some node) in
      let signed =
        reject_reason-Signed k m.sender_hash m.sender_rns_public_key m.lxmf_signed_part
          m.lxmf_signature b in
      (
        added ++ new ∷ [],
        ap (λ (ms : List Message). ms ++ new ∷ []) e ∙ append_again t.messages added (new ∷ []),
        All-append (Vouched k channel node) added new vouched (refl, refl, signed),
      )

-- Where signatures are required, what a push adds to the table of messages are rows of the channel
-- that is pushed to, marked as the pushing node's, each of a sender for whom there is a key of 64
-- bytes that hashes to it and a signature that its Ed25519 half verifies. No other row is changed.
pub handle_push_messages-Vouched :
    (k : Identities) (peers : List Peer) (channel : ℕ) (messages : List PushedMessage)
    (node now : ℕ) (s : PushState)
    → AddsVouched k channel node s.tables
        (handle_push_messages k true peers (some channel) messages (some node) now s).1.tables
handle_push_messages-Vouched k peers channel messages node now s =
    Steps-Vouched
      (handle_push_messages-Steps Any k true peers channel messages node now s (Each-Any messages))
