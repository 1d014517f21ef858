-- ===== src/Core/Processor/Decomposed.antt =====
-- src/hokora/core/message.py: every ingestion comes down to the writes of `Writes`.
use hokora.Base.{
  ℕ, ◌≡◌, refl, sym, ◌∙◌, ap, true, Option, none, some, List, leb, ltb, length, inl, inr,
  Bool-cases, Option-cases, some_inj,
}
use hokora.Base.Keys.{bytes_key}
use hokora.Bytes.{Bytes}
use hokora.Text.{Text}
use hokora.Dict.{lookup_or, contains}
use hokora.Result.{Result, ok, err}
use hokora.Db.{Channel, Message, Tables}
use hokora.Db.Identities.{log}
use hokora.Db.Messages.{find_channel, find_message, deleted_message}
use hokora.Security.SealedInvariant.{Stored, seal_for_origin}
use hokora.Security.Sealed.Gates.{seal_for_origin_lem}
use hokora.Core.Processor.Envelope.{
  MessageEnvelope, ProcessError, MessageProcessor, State, compute_hash,
}
use hokora.Core.Processor.Checks.{is_sender}
use hokora.Core.Processor.Handlers.{
  insert_message, require_target_in_channel, base_row, edited_message, extend_chain, store_edit,
  seal_edit, edit_target, process_edit, delete_target, process_delete,
}
use hokora.Core.Processor.Reacting.{
  no_reaction, has_reacted, counted, reacted_message, add_reaction, react_with, react_target,
  process_reaction,
}
use hokora.Core.Processor.Rows.{require-found, find_message-append}
use hokora.Core.Processor.Writes.{
  Gated, edits, deletes, reacts, elsewhere, changes, inserts, Writes, nothing, also,
}

-- What the gate lets through may stand in a row of the channel.
pub seal-Gated :
    (p : MessageProcessor) (rows : List Channel) (channel : Channel) (id : ℕ) (iv : Bytes)
    (text : Option Text) (stored : Stored)
    → find_channel id rows ≡ some channel
    → seal_for_origin p.gcm p.sealed_manager channel iv text ≡ some stored
    → Gated rows id stored.body
seal-Gated p rows channel id iv text stored found sealed ch same is_sealed =
    let one : channel ≡ ch = some_inj (sym found ∙ same) in
    let s : channel.sealed ≡ true = ap (λ (c : Channel). c.sealed) one ∙ is_sealed in
    ((seal_for_origin_lem p.gcm p.sealed_manager channel iv text stored sealed).0 s).0

module _ (p : MessageProcessor) (e : MessageEnvelope) where
  abbrev pub Then : Tables → Tables → Type 0
  Then t u = Writes e.sender_hash e.channel_id t u

  -- A row is inserted, or its hash is there and nothing is.
  pub insert-Writes :
      (s : State) (m : Message)
      → m.channel_id ≡ e.channel_id
      → m.seq ≡ none
      → Gated s.tables.channels e.channel_id m.body
      → Then s.tables (insert_message s m).1.tables
  unfolding insert_message
  insert-Writes s m c n g = elim (Option-cases (find_message m.msg_hash s.tables.messages)) [
    | inr (x, f) ↦ rw f nothing
    | inl f ↦ rw f (also nothing (inserts m f c n g))
  ]

  extend-Writes :
      (t : Tables) (original : Message) (stored : Stored) (r : Result ProcessError Message × State)
      → Then t r.1.tables
      → find_message original.msg_hash r.1.tables.messages ≡ some original
      → original.channel_id ≡ e.channel_id
      → is_sender original.sender_hash e.sender_hash ≡ true
      → Gated r.1.tables.channels original.channel_id stored.body
      → Then t (extend_chain original stored r).1.tables
  extend-Writes t original stored (err error, s) w f c own g = w
  extend-Writes t original stored (ok edit, s) w f c own g =
      elim (Bool-cases (leb 50 (length original.edit_chain))) [
        | inl full ↦ rw full w
        | inr free ↦ rw free (
            also w (
              changes original (edited_message edit.msg_hash stored) f c
                (edits edit.msg_hash stored own g)))
      ]

  insert_keeps :
      (s : State) (m : Message) (h : ℕ) (x : Message)
      → find_message h s.tables.messages ≡ some x
      → find_message h (insert_message s m).1.tables.messages ≡ some x
  unfolding insert_message
  insert_keeps s m h x f = elim (Option-cases (find_message m.msg_hash s.tables.messages)) [
    | inr (y, g) ↦ rw g f
    | inl g ↦ rw g (find_message-append h s.tables.messages m x f)
  ]

  insert_channels :
      (s : State) (m : Message) → (insert_message s m).1.tables.channels ≡ s.tables.channels
  unfolding insert_message
  insert_channels s m = elim (Option-cases (find_message m.msg_hash s.tables.messages)) [
    | inr (y, g) ↦ rw g refl
    | inl g ↦ rw g refl
  ]

  module _ (s : State) (now : ℕ) (iv : Bytes) where
    store_edit-Writes :
        (original : Message) (channel : Channel) (o : Option Stored)
        → find_channel e.channel_id s.tables.channels ≡ some channel
        → seal_for_origin p.gcm p.sealed_manager channel iv e.body ≡ o
        → find_message original.msg_hash s.tables.messages ≡ some original
        → original.channel_id ≡ e.channel_id
        → is_sender original.sender_hash e.sender_hash ≡ true
        → Then s.tables (store_edit p s e original now o).1.tables
    store_edit-Writes original channel none k seal f c own = nothing
    store_edit-Writes original channel (some stored) k seal f c own =
        let g = seal-Gated p s.tables.channels channel e.channel_id iv e.body stored k seal in
        let m : Message = record (base_row p e (compute_hash p e) now stored) {
          reply_to = some original.msg_hash;
        } in
        extend-Writes s.tables original stored (insert_message s m) (insert-Writes s m refl refl g)
          (insert_keeps s m original.msg_hash original f) c own (rw (insert_channels s m, c) g)

    seal_edit-Writes :
        (original : Message) (o : Option Channel)
        → find_channel e.channel_id s.tables.channels ≡ o
        → find_message original.msg_hash s.tables.messages ≡ some original
        → original.channel_id ≡ e.channel_id
        → is_sender original.sender_hash e.sender_hash ≡ true
        → Then s.tables (seal_edit p s e original now iv o).1.tables
    seal_edit-Writes original none k f c own = nothing
    seal_edit-Writes original (some channel) k f c own =
        store_edit-Writes original channel
          (seal_for_origin p.gcm p.sealed_manager channel iv e.body) k refl f c own

    edit_target-Writes :
        (r : Result ProcessError Message)
        → require_target_in_channel s.tables e.reply_to e.channel_id ≡ r
        → Then s.tables (edit_target p s e now iv r).1.tables
    edit_target-Writes (err error) h = nothing
    edit_target-Writes (ok original) h =
        let found = require-found s.tables e.reply_to e.channel_id original h in
        elim (Bool-cases (is_sender original.sender_hash e.sender_hash)) [
          | inl own ↦ rw own (
              seal_edit-Writes original (find_channel e.channel_id s.tables.channels) refl found.0
                found.1 own)
          | inr other ↦ rw other nothing
        ]

    pub edit-Writes : Then s.tables (process_edit p s e now iv).1.tables
    unfolding process_edit
    edit-Writes =
        edit_target-Writes (require_target_in_channel s.tables e.reply_to e.channel_id) refl

    delete_target-Writes :
        (r : Result ProcessError Message)
        → require_target_in_channel s.tables e.reply_to e.channel_id ≡ r
        → Then s.tables (delete_target s e r).1.tables
    unfolding log
    delete_target-Writes (err error) h = nothing
    delete_target-Writes (ok original) h =
        let found = require-found s.tables e.reply_to e.channel_id original h in
        also
          (also nothing (changes original (deleted_message e.sender_hash) found.0 found.1 deletes))
          (elsewhere refl refl)

    pub delete-Writes : Then s.tables (process_delete s e).1.tables
    unfolding process_delete
    delete-Writes =
        delete_target-Writes (require_target_in_channel s.tables e.reply_to e.channel_id) refl

    add_reaction-Writes :
        (original : Message) (emoji : Text)
        → find_message original.msg_hash s.tables.messages ≡ some original
        → original.channel_id ≡ e.channel_id
        → Then s.tables (add_reaction s e.sender_hash original emoji).1.tables
    add_reaction-Writes original emoji f c =
        let entry = lookup_or emoji no_reaction original.reactions in
        elim (Bool-cases (has_reacted e.sender_hash entry.identities)) [
          | inl again ↦ rw again nothing
          | inr first ↦ rw first (elim (Bool-cases (contains emoji original.reactions)) [
            | inl there_already ↦ rw there_already nothing
            | inr missing ↦ rw missing (
                also nothing (
                  changes original (reacted_message emoji (counted e.sender_hash entry)) f c
                    (reacts emoji (counted e.sender_hash entry))))
          ])
        ]

    react_with-Writes :
        (original : Message) (o : Option Text)
        → find_message original.msg_hash s.tables.messages ≡ some original
        → original.channel_id ≡ e.channel_id
        → Then s.tables (react_with s e.sender_hash original o).1.tables
    react_with-Writes original none f c = nothing
    react_with-Writes original (some emoji) f c = elim (Bool-cases (ltb 32 (length emoji))) [
      | inl long ↦ rw long nothing
      | inr short ↦ rw short (add_reaction-Writes original emoji f c)
    ]

    react_target-Writes :
        (r : Result ProcessError Message)
        → require_target_in_channel s.tables e.reply_to e.channel_id ≡ r
        → Then s.tables (react_target s e r).1.tables
    react_target-Writes (err error) h = nothing
    react_target-Writes (ok original) h =
        let found = require-found s.tables e.reply_to e.channel_id original h in
        react_with-Writes original e.body found.0 found.1

    pub reaction-Writes : Then s.tables (process_reaction s e).1.tables
    unfolding process_reaction
    reaction-Writes =
        react_target-Writes (require_target_in_channel s.tables e.reply_to e.channel_id) refl
