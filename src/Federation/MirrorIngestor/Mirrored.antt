-- ===== src/Federation/MirrorIngestor/Mirrored.antt =====
-- src/hokora/federation/mirror_ingestor.py: a mirrored message is stored under the next number or not
-- at all.
use hokora.Base.{ℕ, ◌≡◌, refl, Bool, Option, none, some, inl, inr, Bool-cases, Option-cases}
use hokora.Result.{Result, ok, err}
use hokora.Db.{Message}
use hokora.Db.Messages.{find_channel, find_message}
use hokora.Core.Sequencer.{next_seq}
use hokora.Core.Processor.Ingest.{is_too_large}
use hokora.Core.Processor.Writes.{Writes, nothing, also, inserts_numbered}
use hokora.Security.Sealed.{SealedChannelError}
use hokora.Security.SealedInvariant.{Stored}
use hokora.Federation.Auth.{Identities, Rejection}
use hokora.Federation.PushMessages.{PushedMessage, PushState, store_pushed, payload_for}
use hokora.Federation.PushMessages.Sound.{payload-Gated}
use hokora.Federation.MirrorIngestor.{
  is_short, is_out_of_range, store_mirrored, store_unless_known, ingest_bound, ingest_mirrored,
}

module _ (node channel : ℕ) (m : PushedMessage) (peer : Option ℕ) (now : ℕ) where
  store_mirrored-Writes :
      (s : PushState) (r : Result SealedChannelError Stored)
      → find_message m.msg_hash s.tables.messages ≡ none
      → payload_for
          (find_channel channel s.tables.channels)
          m.body
          m.encrypted_body
          m.encryption_nonce
          m.encryption_epoch
        ≡ r
      → Writes node channel s.tables (store_mirrored s m channel now peer r).tables
  unfolding store_pushed next_seq
  store_mirrored-Writes s (err e) f h = nothing
  store_mirrored-Writes s (ok stored) f h =
      let gated =
        payload-Gated s.tables.channels channel m.body m.encrypted_body m.encryption_nonce
          m.encryption_epoch stored h in
      elim (Option-cases (find_channel channel s.tables.channels)) [
        | inl n ↦ rw (n, store_mirrored) nothing
        | inr (row, c) ↦
            rw (c, store_mirrored) (also nothing (inserts_numbered _ row c f refl refl gated))
      ]

  store_unless_known-Writes :
      (s : PushState) (known : Option Message)
      → find_message m.msg_hash s.tables.messages ≡ known
      → Writes node channel s.tables (store_unless_known s m channel now peer known).tables
  store_unless_known-Writes s (some row) f = nothing
  store_unless_known-Writes s none f = store_mirrored-Writes s _ f refl

  ingest_bound-Writes :
      (s : PushState) (why : Option Rejection)
      → Writes node channel s.tables (ingest_bound s m channel now peer why).tables
  ingest_bound-Writes s (some why) = nothing
  ingest_bound-Writes s none = store_unless_known-Writes s _ refl

  pub ingest_mirrored-Writes :
      (k : Identities) (require_signed : Bool) (s : PushState)
      → Writes node channel s.tables (ingest_mirrored k require_signed s channel m peer now).tables
  unfolding ingest_mirrored
  ingest_mirrored-Writes k require_signed s = elim (Bool-cases (is_too_large m.body)) [
    | inl large ↦ rw large nothing
    | inr fits ↦ rw fits (elim (Bool-cases (is_short k m.sender_hash)) [
      | inl short ↦ rw short nothing
      | inr long ↦ rw long (elim (Bool-cases (is_out_of_range m.timestamp now)) [
        | inl outside ↦ rw outside nothing
        | inr within ↦ rw within (ingest_bound-Writes _ _)
      ])
    ])
  ]
