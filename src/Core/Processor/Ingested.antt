-- ===== src/Core/Processor/Ingested.antt =====
-- src/hokora/core/message.py: the writes of pins and of stored messages, and of the whole pipeline.
use mathlib.Core.Path.{subst}
use hokora.Base.{
  ℕ, ◌+◌, ◌≡◌, refl, sym, ◌∙◌, ap, Bool, not, Option, none, some, ◌==◌, inl, inr, Bool-cases,
  Option-cases,
}
use hokora.Bytes.{Bytes}
use hokora.Text.{Text}
use hokora.Result.{Result, ok, err}
use hokora.Db.{Channel, Message, Thread, Tables}
use hokora.Db.Identities.{upsert}
use hokora.Db.Messages.{find_channel, find_message, pinned_message, raise_seq}
use hokora.Core.Sequencer.{
  SequenceManager, next_seq, next_thread_found, next_thread_seq, find_thread,
}
use hokora.Security.SealedInvariant.{Stored, seal_for_origin}
use hokora.Core.Processor.Envelope.{
  msg_thread_reply, msg_edit, msg_delete, msg_pin, msg_reaction, MessageEnvelope, ProcessError,
  MessageProcessor, State, compute_hash,
}
use hokora.Core.Processor.Checks.{check_permissions}
use hokora.Core.Processor.Handlers.{
  insert_message, change_row, require_target_in_channel, seal_pin, pin_target, process_pin,
}
use hokora.Core.Processor.Ingest.{
  thread_after_reply, update_thread_metadata, Place, place_main, place_for, assign_place,
  keep_sender_key, stored_row, finish, store_sealed, store_placed, store_message, route,
  route_checked, is_too_large, shortened, ingest,
}
use hokora.Core.Processor.Rows.{require-found}
use hokora.Core.Processor.Checked.{
  OnlyMentions, check_permissions_tables, check_permissions_mentions,
}
use hokora.Core.Processor.Writes.{
  Gated, pins, elsewhere, changes, numbers, inserts_numbered, Writes, nothing, also,
}
use hokora.Core.Processor.Decomposed.{
  seal-Gated, Then, insert-Writes, edit-Writes, delete-Writes, reaction-Writes,
}

Writes-trans :
    {sender channel : ℕ} {t u v : Tables}
    → Writes sender channel t u
    → Writes sender channel u v
    → Writes sender channel t v
Writes-trans w nothing = w
Writes-trans w (also ws last) = also (Writes-trans w ws) last

module _ (p : MessageProcessor) (e : MessageEnvelope) where
  -- The number of the channel's row is assigned and the row that has it inserted.
  numbered-Writes :
      (t : Tables) (s : State) (q : SequenceManager) (m : Message) (row : Channel)
      → Then p e t s.tables
      → find_channel e.channel_id s.tables.channels ≡ some row
      → m.channel_id ≡ e.channel_id
      → m.seq ≡ some (row.latest_seq + 1)
      → Gated s.tables.channels e.channel_id m.body
      → Then p e t
          (insert_message
            (record s {
              sequencer = q;
              tables = record s.tables { channels = raise_seq e.channel_id s.tables.channels };
            })
            m).1.tables
  unfolding insert_message
  numbered-Writes t s q m row w k c n g =
      elim (Option-cases (find_message m.msg_hash s.tables.messages)) [
        | inr (x, f) ↦ rw f (also w (numbers row k))
        | inl f ↦ rw f (also w (inserts_numbered m row k f c n g))
      ]

  module _ (s : State) (now : ℕ) (iv : Bytes) (channel : Channel) where
    seal_pin-Writes :
        (t : Tables) (u : State) (q : SequenceManager) (text : Text) (o : Option Stored)
        → Then p e t u.tables
        → find_channel e.channel_id u.tables.channels ≡ some channel
        → seal_for_origin p.gcm p.sealed_manager channel iv (some text) ≡ o
        → Then p e t
            (seal_pin p
              (record u {
                sequencer = q;
                tables = record u.tables { channels = raise_seq e.channel_id u.tables.channels };
              })
              e
              now
              (channel.latest_seq + 1)
              o).1.tables
    seal_pin-Writes t u q text none w k seal = also w (numbers channel k)
    seal_pin-Writes t u q text (some stored) w k seal =
        let g = seal-Gated p u.tables.channels channel e.channel_id iv (some text) stored k seal in
        numbered-Writes t u q _ channel w k refl refl g

    pin_target-Writes :
        (text : Bool → Text) (r : Result ProcessError Message)
        → find_channel e.channel_id s.tables.channels ≡ some channel
        → require_target_in_channel s.tables e.reply_to e.channel_id ≡ r
        → Then p e s.tables (pin_target p s e channel now iv text r).1.tables
    unfolding next_seq
    pin_target-Writes text (err error) k h = nothing
    pin_target-Writes text (ok original) k h =
        let found = require-found s.tables e.reply_to e.channel_id original h in
        let pinned = not original.pinned in
        let u = change_row s original.msg_hash (pinned_message pinned now) in
        let w : Then p e s.tables u.tables =
          also nothing
            (changes original (pinned_message pinned now) found.0 found.1 (pins pinned now)) in
        rw k (
          seal_pin-Writes s.tables u _ (text pinned)
            (seal_for_origin p.gcm p.sealed_manager channel iv (some (text pinned))) w k refl)

    pin-Writes :
        (text : Bool → Text)
        → find_channel e.channel_id s.tables.channels ≡ some channel
        → Then p e s.tables (process_pin p s e channel now iv text).1.tables
    unfolding process_pin
    pin-Writes text k =
        pin_target-Writes text (require_target_in_channel s.tables e.reply_to e.channel_id) k refl

    keep-Writes :
        (t : Tables) (u : State) (key : Option ℕ)
        → Then p e t u.tables
        → Then p e t (keep_sender_key u e.sender_hash now key).tables
    unfolding upsert
    keep-Writes t u none w = w
    keep-Writes t u (some key) w = also w (elsewhere refl refl)

    finish-Writes :
        (t : Tables) (r : Result ProcessError Message × State)
        → Then p e t r.1.tables
        → Then p e t (finish e now r).1.tables
    finish-Writes t (err error, u) w = w
    finish-Writes t (ok m, u) w = keep-Writes t u e.sender_public_key w

    store_main-Writes :
        (o : Option Stored)
        → find_channel e.channel_id s.tables.channels ≡ some channel
        → seal_for_origin p.gcm p.sealed_manager channel iv e.body ≡ o
        → (q : SequenceManager)
        → Then p e s.tables
            (store_sealed p e now
              (record { seq = some (channel.latest_seq + 1); thread_seq = none })
              (record s {
                sequencer = q;
                tables = record s.tables { channels = raise_seq e.channel_id s.tables.channels };
              })
              o).1.tables
    store_main-Writes none k seal q = also nothing (numbers channel k)
    store_main-Writes (some stored) k seal q =
        let g = seal-Gated p s.tables.channels channel e.channel_id iv e.body stored k seal in
        finish-Writes s.tables _ (numbered-Writes s.tables s q _ channel nothing k refl refl g)

    store_next-Writes :
        find_channel e.channel_id s.tables.channels ≡ some channel
        → Then p e s.tables
            (store_placed p e channel now iv
              (place_main s (next_seq s.sequencer s.tables e.channel_id))).1.tables
    unfolding next_seq
    store_next-Writes k =
        rw k (store_main-Writes (seal_for_origin p.gcm p.sealed_manager channel iv e.body) k refl _)

    -- A state with the messages and channels of `s`.
    store_reply-Writes :
        (u : State) (place : Place) (o : Option Stored)
        → place.seq ≡ none
        → u.tables.messages ≡ s.tables.messages
        → u.tables.channels ≡ s.tables.channels
        → find_channel e.channel_id s.tables.channels ≡ some channel
        → seal_for_origin p.gcm p.sealed_manager channel iv e.body ≡ o
        → Then p e s.tables (store_sealed p e now place u o).1.tables
    store_reply-Writes u place none n ms cs k seal = also nothing (elsewhere ms cs)
    store_reply-Writes u place (some stored) n ms cs k seal =
        let g = seal-Gated p s.tables.channels channel e.channel_id iv e.body stored k seal in
        let m = stored_row p e (compute_hash p e) now place stored in
        finish-Writes s.tables (insert_message u m)
          (Writes-trans (also nothing (elsewhere ms cs)) (insert-Writes p e u m refl n (rw cs g)))

thread_found_rows :
    (q : SequenceManager) (t : Tables) (root channel now : ℕ) (o : Option Thread)
    → ((next_thread_found q t root channel now o).2.messages ≡ t.messages)
      × ((next_thread_found q t root channel now o).2.channels ≡ t.channels)
thread_found_rows q t root channel now none = (refl, refl)
thread_found_rows q t root channel now (some row) = (refl, refl)

after_reply_rows :
    (t : Tables) (root channel who now : ℕ) (o : Option Thread)
    → ((thread_after_reply t root channel who now o).messages ≡ t.messages)
      × ((thread_after_reply t root channel who now o).channels ≡ t.channels)
after_reply_rows t root channel who now none = (refl, refl)
after_reply_rows t root channel who now (some row) = (refl, refl)

-- A reply's place leaves messages and channels alone.
reply_rows :
    (s : State) (e : MessageEnvelope) (root now : ℕ)
    → let t' =
        update_thread_metadata
          (next_thread_seq s.sequencer s.tables root e.channel_id now).2
          root
          e.channel_id
          e.sender_hash
          now in
      (t'.messages ≡ s.tables.messages) × (t'.channels ≡ s.tables.channels)
unfolding next_thread_seq update_thread_metadata
reply_rows s e root now =
    let first =
      thread_found_rows s.sequencer s.tables root e.channel_id now
        (find_thread root s.tables.threads) in
    let t1 =
      (next_thread_found s.sequencer s.tables root e.channel_id now
        (find_thread root s.tables.threads)).2 in
    let second =
      after_reply_rows t1 root e.channel_id e.sender_hash now (find_thread root t1.threads) in
    (second.0 ∙ first.0, second.1 ∙ first.1)

module _ (p : MessageProcessor) (e : MessageEnvelope) (s : State) (now : ℕ) (iv : Bytes)
    (channel : Channel) (k : find_channel e.channel_id s.tables.channels ≡ some channel) where
  store_for-Writes :
      (o : Option ℕ)
      → Then p e s.tables (store_placed p e channel now iv (place_for s e now o)).1.tables
  store_for-Writes none = store_next-Writes p e s now iv channel k
  store_for-Writes (some root) = elim (Bool-cases (e.type == msg_thread_reply)) [
    | inr other ↦ rw other (store_next-Writes p e s now iv channel k)
    | inl reply ↦
        let rows = reply_rows s e root now in
        rw reply (
          store_reply-Writes p e s now iv channel _ _
            (seal_for_origin p.gcm p.sealed_manager channel iv e.body) refl rows.0 rows.1 k refl)
  ]

  store-Writes : Then p e s.tables (store_message p s e channel now iv).1.tables
  unfolding store_message assign_place
  store-Writes = elim (Option-cases (find_message (compute_hash p e) s.tables.messages)) [
    | inr (x, f) ↦ rw f nothing
    | inl f ↦ rw f (store_for-Writes e.reply_to)
  ]

  route-Writes : (text : Bool → Text) → Then p e s.tables (route p s e channel now iv text).1.tables
  unfolding route
  route-Writes text = elim (Bool-cases (e.type == msg_edit)) [
    | inl t ↦ rw t (edit-Writes p e s now iv)
    | inr t ↦ elim (Bool-cases (e.type == msg_delete)) [
      | inl d ↦ rw (t, d) (delete-Writes p e s now iv)
      | inr d ↦ elim (Bool-cases (e.type == msg_pin)) [
        | inl i ↦ rw (t, d, i) (pin-Writes p e s now iv channel text k)
        | inr i ↦ elim (Bool-cases (e.type == msg_reaction)) [
          | inl r ↦ rw (t, d, i, r) (reaction-Writes p e s now iv)
          | inr r ↦ rw (t, d, i, r) store-Writes
        ]
      ]
    ]
  ]

module _ (p : MessageProcessor) (now : ℕ) (iv : Bytes) (text : Bool → Text) where
  checked-Writes :
      (t : Tables) (e : MessageEnvelope) (channel : Channel)
      (r : Result ProcessError MessageEnvelope × State)
      → find_channel e.channel_id t.channels ≡ some channel
      → r.1.tables ≡ t
      → ((e' : MessageEnvelope) → r.0 ≡ ok e' → OnlyMentions e e')
      → Then p e t (route_checked p channel now iv text r).1.tables
  checked-Writes t e channel (err error, s) k same m =
      subst (λ (u : Tables). Writes e.sender_hash e.channel_id t u) (sym same) nothing
  checked-Writes t e channel (ok e', s) k same m =
      let (ms, f) = m e' refl in
      let id : e.channel_id ≡ e'.channel_id = ap (λ (x : MessageEnvelope). x.channel_id) f in
      let who : e.sender_hash ≡ e'.sender_hash = ap (λ (x : MessageEnvelope). x.sender_hash) f in
      let k' : find_channel e'.channel_id s.tables.channels ≡ some channel = rw (same, ← id) k in
      let w = route-Writes p e' s now iv channel k' text in rw (← same, id, who) w

  -- Whatever an envelope asks for, and however its ingestion ends, what was written until then are
  -- writes of its sender to its channel.
  pub ingest-Writes :
      (s : State) (e : MessageEnvelope)
      → Writes e.sender_hash e.channel_id s.tables (ingest p s e now iv text).1.tables
  unfolding ingest
  ingest-Writes s e = elim (Option-cases (find_channel e.channel_id s.tables.channels)) [
    | inl f ↦ rw f nothing
    | inr (channel, f) ↦ elim (Bool-cases (is_too_large e.body)) [
      | inl large ↦ rw (f, large) nothing
      | inr fits ↦
          let e1 = record e { display_name = shortened e.display_name } in
          rw (f, fits)
            (checked-Writes s.tables e1 channel (check_permissions p s e1 channel now) f
              (check_permissions_tables p s e1 channel now)
              (λ e' h. check_permissions_mentions p s e1 e' channel now h))
    ]
  ]
