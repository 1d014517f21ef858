-- ===== src/Core/Processor/Reactions.antt =====
-- src/hokora/core/message.py: which reactions get into the table.
use hokora.Base.{
  ℕ, ◌≤◌, ◌≡◌, refl, ◌∙◌, ap, true, false, Option, none, some, List, [], ◌∷◌, arith, ltb, ◌==◌,
  length, inl, inr, Bool-cases,
}
use hokora.Base.Keys.{bytes_key}
use hokora.Text.{Text}
use hokora.Dict.{lookup, lookup_or, contains}
use hokora.Dict.Laws.{contains-lookup, lookup-insert_self}
use hokora.Result.{ok}
use hokora.Db.{Reaction, Message}
use hokora.Db.Messages.{find_message}
use hokora.Core.Processor.Envelope.{MessageEnvelope, State}
use hokora.Core.Processor.Handlers.{change_row, require_target_in_channel}
use hokora.Core.Processor.Reacting.{
  no_reaction, has_reacted, counted, reacted_message, process_reaction,
}
use hokora.Core.Processor.Rows.{require-found, find-change_self}

-- The entry of an emoji to which one identity has reacted.
abbrev pub first_entry : ℕ → Reaction
first_entry who = record { count = 1; identities = who ∷ [] }

contains-reacted :
    (emoji : Text) (r : Reaction) (m : Message)
    → contains emoji (reacted_message emoji r m).reactions ≡ true
contains-reacted emoji r m =
    let changed = (reacted_message emoji r m).reactions in
    contains-lookup emoji changed
    ∙ ap (λ (o : Option Reaction). elim o [ none ↦ false | some _ ↦ true ])
        (lookup-insert_self emoji r m.reactions)

entry_missing :
    (emoji : Text) (m : Message)
    → contains emoji m.reactions ≡ false
    → lookup emoji m.reactions ≡ none
entry_missing emoji m h = ground (arith, contains-lookup emoji m.reactions)

-- With a new emoji the row is written.
reaction_first :
    (s : State) (e : MessageEnvelope) (m : Message) (emoji : Text)
    → require_target_in_channel s.tables e.reply_to e.channel_id ≡ ok m
    → e.body ≡ some emoji
    → length emoji ≤ 32
    → contains emoji m.reactions ≡ false
    → (process_reaction s e).1
      ≡ change_row s m.msg_hash (reacted_message emoji (first_entry e.sender_hash))
unfolding process_reaction counted
reaction_first s e m emoji target asks short new =
    let fits : ltb 32 (length emoji) ≡ false = ground arith in
    let empty : lookup_or emoji no_reaction m.reactions ≡ no_reaction =
      ap (λ (o : Option Reaction). elim o [ none ↦ no_reaction | some v ↦ v ])
        (entry_missing emoji m new) in
    let unlisted = ap (λ (r : Reaction). has_reacted e.sender_hash r.identities) empty in
    rw (target, asks, fits, unlisted, new)
      (ap
        (λ (r : Reaction).
          change_row s m.msg_hash (reacted_message emoji (counted e.sender_hash r)))
        empty)

-- With one that is there, nothing is.
reaction_later :
    (s : State) (e : MessageEnvelope) (m : Message) (emoji : Text) (target : ℕ)
    → find_message target s.tables.messages ≡ some m
    → contains emoji m.reactions ≡ true
    → e.reply_to ≡ some target
    → e.body ≡ some emoji
    → (process_reaction s e).1 ≡ s
unfolding process_reaction require_target_in_channel
reaction_later s e m emoji target found old reply asks =
    let entry = lookup_or emoji no_reaction m.reactions in
    elim (Bool-cases (m.channel_id == e.channel_id)) [
      | inr elsewhere ↦ rw (reply, found, elsewhere) refl
      | inl inside ↦ elim (Bool-cases (ltb 32 (length emoji))) [
        | inl long ↦ rw (reply, found, inside, asks, long) refl
        | inr short ↦ elim (Bool-cases (has_reacted e.sender_hash entry.identities)) [
          | inl again ↦ rw (reply, found, inside, asks, short, again) refl
          | inr first ↦ rw (reply, found, inside, asks, short, first, old) refl
        ]
      ]
    ]

unfoldable pub process_all : List MessageEnvelope → State → State
process_all [] s = s
process_all (e ∷ es) s = process_all es (process_reaction s e).1

-- Reactions with an emoji to one message, by anyone.
abbrev pub AllReact : Text → Option ℕ → List MessageEnvelope → Type 0
AllReact emoji target [] = Unit
AllReact emoji target (e ∷ es) =
    (e.body ≡ some emoji) × (e.reply_to ≡ target) × AllReact emoji target es

reactions_later :
    (es : List MessageEnvelope) (s : State) (m : Message) (emoji : Text) (target : ℕ)
    → find_message target s.tables.messages ≡ some m
    → contains emoji m.reactions ≡ true
    → AllReact emoji (some target) es
    → process_all es s ≡ s
unfolding process_all
reactions_later [] s m emoji target found old a = refl
reactions_later (e ∷ es) s m emoji target found old a =
    ap (process_all es) (reaction_later s e m emoji target found old a.1 a.0)
    ∙ reactions_later es s m emoji target found old a.2

-- A reaction with an emoji of at most 32 characters that the message does not have yet is stored
-- with a count of one and the identity that made it. Whatever reactions with this emoji to this
-- message follow, by whomever and however many, the state stays as it was after the first: no
-- other count and no other identity is ever stored.
pub first_reaction_stays :
    (s : State) (e : MessageEnvelope) (m : Message) (emoji : Text) (es : List MessageEnvelope)
    → require_target_in_channel s.tables e.reply_to e.channel_id ≡ ok m
    → e.body ≡ some emoji
    → length emoji ≤ 32
    → contains emoji m.reactions ≡ false
    → AllReact emoji e.reply_to es
    → process_all (e ∷ es) s
      ≡ change_row s m.msg_hash (reacted_message emoji (first_entry e.sender_hash))
unfolding process_all
first_reaction_stays s e m emoji es target asks short new others =
    let r = first_entry e.sender_hash in
    let s1 = change_row s m.msg_hash (reacted_message emoji r) in
    let (found, c, reply) = require-found s.tables e.reply_to e.channel_id m target in
    let after =
      find-change_self m.msg_hash (reacted_message emoji r) s.tables.messages m found refl in
    ap (process_all es) (reaction_first s e m emoji target asks short new)
    ∙ reactions_later es s1 (reacted_message emoji r m) emoji m.msg_hash after
        (contains-reacted emoji r m) (rw reply at others)
