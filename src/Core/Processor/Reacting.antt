-- ===== src/Core/Processor/Reacting.antt =====
-- src/hokora/core/message.py: `process_reaction`.
use hokora.Base.{
  ℕ, ◌+◌, Bool, false, ◌||◌, Option, none, some, List, [], ◌∷◌, ◌++◌, ltb, ◌==◌, length, take,
  if◌then◌else◌,
}
use hokora.Base.Keys.{bytes_key}
use hokora.Text.{Text}
use hokora.Dict.{lookup_or, contains, insert}
use hokora.Result.{Result, ok, err}
use hokora.Db.{Reaction, Message}
use hokora.Core.Processor.Envelope.{
  max_reactions_per_message, MessageEnvelope, ProcessError, no_emoji, emoji_too_long, State,
}
use hokora.Core.Processor.Handlers.{change_row, require_target_in_channel}

abbrev pub no_reaction : Reaction
no_reaction = record { count = 0; identities = [] }

abbrev pub has_reacted : ℕ → List ℕ → Bool
has_reacted who [] = false
has_reacted who (x ∷ xs) = x == who || has_reacted who xs

-- One more in the count; of the identities the first twenty stay.
unfoldable pub counted : ℕ → Reaction → Reaction
counted who r = record r {
  count = r.count + 1;
  identities =
      if ltb max_reactions_per_message (length (r.identities ++ who ∷ []))
      then take max_reactions_per_message (r.identities ++ who ∷ [])
      else r.identities ++ who ∷ [];
}

abbrev pub reacted_message : Text → Reaction → Message → Message
reacted_message emoji r row = record row { reactions = insert emoji r row.reactions }

-- `original.reactions = reactions` and the flush. `dict(original.reactions)` is a shallow copy, so that
-- the entry of an emoji that is there is changed in the loaded value itself. The new value is then
-- equal to the old one, and SQLAlchemy leaves the column out of the UPDATE; the object that is
-- returned has the new entry. With a new emoji the two values differ and the row is written.
abbrev pub save_reaction : State → Message → Text → Reaction → State
save_reaction s original emoji entry =
    if contains emoji original.reactions
    then s
    else change_row s original.msg_hash (reacted_message emoji entry)

abbrev pub add_reaction : State → ℕ → Message → Text → Result ProcessError Message × State
add_reaction s sender original emoji =
    let entry = lookup_or emoji no_reaction original.reactions in
    if has_reacted sender entry.identities then (ok original, s) else (
      ok (reacted_message emoji (counted sender entry) original),
      save_reaction s original emoji (counted sender entry),
    )

abbrev pub react_with : State → ℕ → Message → Option Text → Result ProcessError Message × State
react_with s sender original none = (err no_emoji, s)
react_with s sender original (some emoji) =
    if ltb 32 (length emoji) then (err emoji_too_long, s) else add_reaction s sender original emoji

abbrev pub react_target :
    State → MessageEnvelope → Result ProcessError Message → Result ProcessError Message × State
react_target s e (err error) = (err error, s)
react_target s e (ok original) = react_with s e.sender_hash original e.body

unfoldable pub process_reaction : State → MessageEnvelope → Result ProcessError Message × State
process_reaction s e = react_target s e (require_target_in_channel s.tables e.reply_to e.channel_id)
