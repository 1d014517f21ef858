-- ===== src/Core/Processor/Boundaries.antt =====
-- src/hokora/core/message.py: what an ingestion leaves alone: the rows of other channels, and the
-- texts of other people.
use mathlib.Core.Path.{subst}
use hokora.Base.{
  ℕ, ◌⊎◌, ◌≡◌, ◌≢◌, refl, sym, ◌∙◌, ap, Bool, true, false, Option, none, some, List, arith, ◌==◌,
  inl, inr, Bool-cases, some_inj,
}
use hokora.Bytes.{Bytes}
use hokora.Text.{Text}
use hokora.Db.{Channel, Message, Tables}
use hokora.Db.Messages.{find_message, change_message}
use hokora.Core.Processor.Envelope.{MessageEnvelope, MessageProcessor, State}
use hokora.Core.Processor.Checks.{is_sender}
use hokora.Core.Processor.Ingest.{ingest}
use hokora.Core.Processor.Rows.{find_message-append, find-change_self, find-change_other}
use hokora.Core.Processor.Writes.{
  Change, edits, deletes, pins, reacts, Write, elsewhere, changes, inserts, numbers,
  inserts_numbered, Writes, nothing, also,
}
use hokora.Core.Processor.Ingested.{ingest-Writes}

-- What became of a row after writes of a sender to a channel: it stays where it is, a row of another
-- channel is the same, and of someone else's row the text is the same or was deleted.
pub record Kept (sender channel : ℕ) (m m' : Message) : Type 0 where
  pub same_channel : m'.channel_id ≡ m.channel_id
  pub same_sender : m'.sender_hash ≡ m.sender_hash
  pub stays_deleted : m.deleted ≡ true → m'.deleted ≡ true
  pub elsewhere_same : m.channel_id ≢ channel → m' ≡ m
  pub others_text :
      is_sender m.sender_hash sender ≡ false
      → (m'.body ≡ m.body) ⊎ (m'.body ≡ none) × (m'.deleted ≡ true)

Kept-refl : {sender channel : ℕ} (m : Message) → Kept sender channel m m
Kept-refl m = record {
  same_channel = refl;
  same_sender = refl;
  stays_deleted = λ d. d;
  elsewhere_same = λ n. refl;
  others_text = λ o. inl refl;
}

text_trans :
    (m m' m'' : Message)
    → (m'.body ≡ m.body) ⊎ (m'.body ≡ none) × (m'.deleted ≡ true)
    → (m''.body ≡ m'.body) ⊎ (m''.body ≡ none) × (m''.deleted ≡ true)
    → (m'.deleted ≡ true → m''.deleted ≡ true)
    → (m''.body ≡ m.body) ⊎ (m''.body ≡ none) × (m''.deleted ≡ true)
text_trans m m' m'' (inl a) (inl b) d = inl (b ∙ a)
text_trans m m' m'' (inl a) (inr b) d = inr b
text_trans m m' m'' (inr a) (inl b) d = inr (b ∙ a.0, d a.1)
text_trans m m' m'' (inr a) (inr b) d = inr b

Kept-trans :
    {sender channel : ℕ} (m m' m'' : Message)
    → Kept sender channel m m'
    → Kept sender channel m' m''
    → Kept sender channel m m''
Kept-trans {sender} m m' m'' a b = record {
  same_channel = b.same_channel ∙ a.same_channel;
  same_sender = b.same_sender ∙ a.same_sender;
  stays_deleted = λ d. b.stays_deleted (a.stays_deleted d);
  elsewhere_same = λ n. b.elsewhere_same (λ e. n (sym a.same_channel ∙ e)) ∙ a.elsewhere_same n;
  others_text = λ o.
      text_trans m m' m'' (a.others_text o)
        (b.others_text (ap (λ (x : Option ℕ). is_sender x sender) a.same_sender ∙ o))
        b.stays_deleted;
}

true_ne_false : true ≢ false
true_ne_false h = cc

Change-hash :
    {rows : List Channel} {sender : ℕ} {m : Message} {fields : Message → Message}
    → Change rows sender m fields
    → (fields m).msg_hash ≡ m.msg_hash
Change-hash (edits hash stored own g) = refl
Change-hash deletes = refl
Change-hash (pins b now) = refl
Change-hash (reacts emoji r) = refl

Change-Kept :
    {rows : List Channel} {sender : ℕ} (channel : ℕ) (m : Message) {fields : Message → Message}
    → Change rows sender m fields
    → m.channel_id ≡ channel
    → Kept sender channel m (fields m)
Change-Kept channel m (edits hash stored own g) c = record {
  same_channel = refl;
  same_sender = refl;
  stays_deleted = λ d. d;
  elsewhere_same = λ n. absurd (n c);
  others_text = λ o. absurd (true_ne_false (sym own ∙ o));
}
Change-Kept channel m deletes c = record {
  same_channel = refl;
  same_sender = refl;
  stays_deleted = λ d. refl;
  elsewhere_same = λ n. absurd (n c);
  others_text = λ o. inr (refl, refl);
}
Change-Kept channel m (pins b now) c = record {
  same_channel = refl;
  same_sender = refl;
  stays_deleted = λ d. d;
  elsewhere_same = λ n. absurd (n c);
  others_text = λ o. inl refl;
}
Change-Kept channel m (reacts emoji r) c = record {
  same_channel = refl;
  same_sender = refl;
  stays_deleted = λ d. d;
  elsewhere_same = λ n. absurd (n c);
  others_text = λ o. inl refl;
}

module _ {sender channel : ℕ} where
  Write-Kept :
      {t u : Tables} (m : Message) (h : ℕ)
      → Write sender channel t u
      → find_message h t.messages ≡ some m
      → (m' : Message) × (find_message h u.messages ≡ some m') × Kept sender channel m m'
  Write-Kept m h (elsewhere ms cs) f = (m, ap (find_message h) ms ∙ f, Kept-refl m)
  Write-Kept {t = t} m h (changes x fields found c change) f = elim (Bool-cases (h == x.msg_hash)) [
    | inl same ↦
        let id : h ≡ x.msg_hash = ground arith in
        let one : x ≡ m =
          some_inj (sym found ∙ ap (λ (k : ℕ). find_message k t.messages) (sym id) ∙ f) in
        (
          fields x,
          ap (λ (k : ℕ). find_message k (change_message x.msg_hash fields t.messages)) id
              ∙ find-change_self x.msg_hash fields t.messages x found (Change-hash change),
          subst (λ (y : Message). Kept sender channel y (fields x)) one
              (Change-Kept channel x change c),
        )
    | inr other ↦ (
      m,
      find-change_other h x.msg_hash fields t.messages x found (Change-hash change) (ground arith)
          ∙ f,
      Kept-refl m,
    )
  ]
  Write-Kept {t = t} m h (inserts x g c n b) f =
      (m, find_message-append h t.messages x m f, Kept-refl m)
  Write-Kept m h (numbers row k) f = (m, f, Kept-refl m)
  Write-Kept {t = t} m h (inserts_numbered x row k g c n b) f =
      (m, find_message-append h t.messages x m f, Kept-refl m)

  Writes-Kept :
      {t u : Tables} (m : Message) (h : ℕ)
      → Writes sender channel t u
      → find_message h t.messages ≡ some m
      → (m' : Message) × (find_message h u.messages ≡ some m') × Kept sender channel m m'
  Writes-Kept m h nothing f = (m, f, Kept-refl m)
  Writes-Kept m h (also ws w) f =
      let (m', f', k) = Writes-Kept m h ws f in
      let (m'', f'', k') = Write-Kept m' h w f' in (m'', f'', Kept-trans m m' m'' k k')

-- No ingestion loses a row or moves it to another channel or sender; a row of another channel
-- than the envelope's is unchanged; and a row of another sender keeps its text, unless it was
-- deleted.
pub ingest-Kept :
    (p : MessageProcessor) (s : State) (e : MessageEnvelope) (now : ℕ) (iv : Bytes)
    (text : Bool → Text) (h : ℕ) (m : Message)
    → find_message h s.tables.messages ≡ some m
    → (m' : Message) × (find_message h (ingest p s e now iv text).1.tables.messages ≡ some m')
      × Kept e.sender_hash e.channel_id m m'
ingest-Kept p s e now iv text h m f = Writes-Kept m h (ingest-Writes p now iv text s e) f
