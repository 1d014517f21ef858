-- ===== src/Core/Processor/Numbering.antt =====
-- src/hokora/core/message.py: whatever is ingested, the numbers of every channel rise in the order in
-- which its messages were stored.
use hokora.Base.{ℕ, ◌≡◌, refl, ◌∙◌, ap, Bool, some, List, arith}
use hokora.Bytes.{Bytes}
use hokora.Text.{Text}
use hokora.Db.{Channel, Message, Tables}
use hokora.Db.Messages.{raise_seq}
use hokora.Core.Processor.Envelope.{MessageEnvelope, MessageProcessor, State}
use hokora.Core.Processor.Ingest.{ingest}
use hokora.Core.Processor.Writes.{
  Change, edits, deletes, pins, reacts, Write, elsewhere, changes, inserts, numbers,
  inserts_numbered, Writes, nothing, also,
}
use hokora.Core.Processor.Ingested.{ingest-Writes}
use hokora.Core.Processor.Sequences.{
  InOrder, append-InOrder, append-numbered, raise-HasRoom, change-InOrder,
}

Change-place :
    {rows : List Channel} {sender : ℕ} {m : Message} {fields : Message → Message}
    → Change rows sender m fields
    → (x : Message) → ((fields x).channel_id ≡ x.channel_id) × ((fields x).seq ≡ x.seq)
Change-place (edits hash stored own g) x = (refl, refl)
Change-place deletes x = (refl, refl)
Change-place (pins b now) x = (refl, refl)
Change-place (reacts emoji r) x = (refl, refl)

module _ {sender channel : ℕ} where
  Write-InOrder : {t u : Tables} → Write sender channel t u → InOrder t → InOrder u
  Write-InOrder (elsewhere ms cs) order = λ c. rw (ms, cs) (order c)
  Write-InOrder {t = t} (changes m fields f c change) order =
      change-InOrder t m.msg_hash fields (Change-place change) order
  Write-InOrder {t = t} (inserts m f c n g) order = append-InOrder t m order n
  Write-InOrder {t = t} (numbers row k) order = (raise-HasRoom t channel row order k).0
  Write-InOrder {t = t} (inserts_numbered m row k f c n g) order =
      let room = raise-HasRoom t channel row order k in
      append-numbered (record t { channels = raise_seq channel t.channels }) m row.latest_seq
        (rw c room) (n ∙ ap some (ground arith))

  pub Writes-InOrder : {t u : Tables} → Writes sender channel t u → InOrder t → InOrder u
  Writes-InOrder nothing order = order
  Writes-InOrder (also ws w) order = Write-InOrder w (Writes-InOrder ws order)

-- If in every channel the sequence numbers of the stored messages rise strictly in the order of
-- the table and none is above the last that was assigned, this holds after any ingestion,
-- whatever its type, and whether it succeeds or not.
pub ingest-InOrder :
    (p : MessageProcessor) (s : State) (e : MessageEnvelope) (now : ℕ) (iv : Bytes)
    (text : Bool → Text)
    → InOrder s.tables
    → InOrder (ingest p s e now iv text).1.tables
ingest-InOrder p s e now iv text order = Writes-InOrder (ingest-Writes p now iv text s e) order
