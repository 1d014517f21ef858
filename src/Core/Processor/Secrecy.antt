-- ===== src/Core/Processor/Secrecy.antt =====
-- src/hokora/core/message.py: no text is ever stored in a sealed channel.
use hokora.Base.{
  ℕ, ◌+◌, ◌≡◌, refl, ◌∙◌, ap, Bool, Option, some, List, [], ◌∷◌, ◌++◌, ◌==◌, if◌then◌else◌, inl,
  inr, Bool-cases, some_inj,
}
use hokora.Bytes.{Bytes}
use hokora.Text.{Text}
use hokora.Db.{Channel, Message, Tables}
use hokora.Db.Messages.{find_channel, raise_seq}
use hokora.Core.Processor.Envelope.{MessageEnvelope, MessageProcessor, State}
use hokora.Core.Processor.Ingest.{ingest}
use hokora.Core.Processor.Rows.{All, All-append, All-map, All-find, change_message-All}
use hokora.Core.Processor.Writes.{
  Gated, Change, edits, deletes, pins, reacts, Write, elsewhere, changes, inserts, numbers,
  inserts_numbered, Writes, nothing, also,
}
use hokora.Core.Processor.Ingested.{ingest-Writes}

-- No row of a sealed channel has a text.
abbrev pub IsSecretIn : List Channel → List Message → Type 0
IsSecretIn rows ms = All (λ m. Gated rows m.channel_id m.body) ms

raise_seq-sealed :
    (c x : ℕ) (rows : List Channel) (ch : Channel)
    → find_channel x (raise_seq c rows) ≡ some ch
    → (ch' : Channel) × (find_channel x rows ≡ some ch') × (ch'.sealed ≡ ch.sealed)
unfolding find_channel raise_seq
raise_seq-sealed c x [] ch h = absurd (cc)
raise_seq-sealed c x (row ∷ rows) ch h =
    let raised = record row { latest_seq = row.latest_seq + 1 } in
    elim (Bool-cases (row.id == c)) [
      | inl t ↦
          let h' : (if row.id == x then some raised else find_channel x rows) ≡ some ch =
            rw t at h in
          elim (Bool-cases (row.id == x)) [
            | inl i ↦
                let one : raised ≡ ch = some_inj (rw i at h') in
                (row, rw i refl, ap (λ (r : Channel). r.sealed) one)
            | inr i ↦ (ch, rw i (rw i at h'), refl)
          ]
      | inr t ↦
          let h' : (if row.id == x then some row else find_channel x (raise_seq c rows)) ≡ some ch =
            rw t at h in
          elim (Bool-cases (row.id == x)) [
            | inl i ↦
                let one : row ≡ ch = some_inj (rw i at h') in
                (row, rw i refl, ap (λ (r : Channel). r.sealed) one)
            | inr i ↦
                let deeper = raise_seq-sealed c x rows ch (rw i at h') in
                (deeper.0, rw i deeper.1, deeper.2)
          ]
    ]

pub raise-Gated :
    (rows : List Channel) (c x : ℕ) (text : Option Text)
    → Gated rows x text
    → Gated (raise_seq c rows) x text
raise-Gated rows c x text g ch found is_sealed =
    let (ch', f, same) = raise_seq-sealed c x rows ch found in g ch' f (same ∙ is_sealed)

Change-Gated :
    (rows : List Channel) (sender : ℕ) (m : Message) (fields : Message → Message)
    → Change rows sender m fields
    → Gated rows m.channel_id m.body
    → Gated rows (fields m).channel_id (fields m).body
Change-Gated rows sender m fields (edits hash stored own g) h = g
Change-Gated rows sender m fields deletes h = λ ch f s. refl
Change-Gated rows sender m fields (pins b now) h = h
Change-Gated rows sender m fields (reacts emoji r) h = h

module _ {sender channel : ℕ} where
  Write-secret :
      {t u : Tables}
      → Write sender channel t u
      → IsSecretIn t.channels t.messages
      → IsSecretIn u.channels u.messages
  Write-secret (elsewhere ms cs) s = rw (ms, cs) s
  Write-secret {t = t} (changes m fields f c change) s =
      let P : Message → Type 0 = λ x. Gated t.channels x.channel_id x.body in
      let g =
        Change-Gated t.channels sender m fields change (All-find P m.msg_hash t.messages m f s) in
      change_message-All P m.msg_hash fields t.messages m f g s
  Write-secret {t = t} (inserts m f c n g) s =
      All-append (λ x. Gated t.channels x.channel_id x.body) t.messages m s (rw c g)
  Write-secret {t = t} (numbers row k) s =
      All-map (λ x. Gated t.channels x.channel_id x.body) _ t.messages
        (λ m g. raise-Gated t.channels channel m.channel_id m.body g) s
  Write-secret {t = t} (inserts_numbered m row k f c n g) s =
      let all = All-append (λ x. Gated t.channels x.channel_id x.body) t.messages m s (rw c g) in
      All-map (λ x. Gated t.channels x.channel_id x.body) _ (t.messages ++ m ∷ [])
        (λ m g. raise-Gated t.channels channel m.channel_id m.body g) all

  pub Writes-secret :
      {t u : Tables}
      → Writes sender channel t u
      → IsSecretIn t.channels t.messages
      → IsSecretIn u.channels u.messages
  Writes-secret nothing s = s
  Writes-secret (also ws w) s = Write-secret w (Writes-secret ws s)

-- If no row of a sealed channel has a text, none has after any ingestion: messages, edits and
-- pins of a sealed channel are stored without their texts or not at all.
pub ingest-IsSecretIn :
    (p : MessageProcessor) (s : State) (e : MessageEnvelope) (now : ℕ) (iv : Bytes)
    (text : Bool → Text)
    → IsSecretIn s.tables.channels s.tables.messages
    → let t' = (ingest p s e now iv text).1.tables in IsSecretIn t'.channels t'.messages
ingest-IsSecretIn p s e now iv text secret = Writes-secret (ingest-Writes p now iv text s e) secret
