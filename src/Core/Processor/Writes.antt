-- ===== src/Core/Processor/Writes.antt =====
-- src/hokora/core/message.py: the writes that an ingestion can make, one after the other.
use hokora.Base.{ℕ, ◌+◌, ◌≡◌, Bool, true, Option, none, some, List, [], ◌∷◌, ◌++◌}
use hokora.Text.{Text}
use hokora.Db.{Channel, Reaction, Message, Tables}
use hokora.Db.Messages.{
  find_channel, find_message, change_message, deleted_message, pinned_message, raise_seq,
}
use hokora.Security.SealedInvariant.{Stored}
use hokora.Core.Processor.Checks.{is_sender}
use hokora.Core.Processor.Handlers.{edited_message}
use hokora.Core.Processor.Reacting.{reacted_message}

-- A text that may stand in a row of the channel: none at all if the channel is sealed.
abbrev pub Gated : List Channel → ℕ → Option Text → Type 0
Gated rows channel text =
    (ch : Channel) → find_channel channel rows ≡ some ch → ch.sealed ≡ true → text ≡ none

-- What a sender can do to a row, and an edit only to its own.
pub data Change (rows : List Channel) (sender : ℕ) (m : Message)
    : (Message → Message) → Type 0 where
  edits :
      (hash : ℕ) (stored : Stored)
      → is_sender m.sender_hash sender ≡ true
      → Gated rows m.channel_id stored.body
      → Change rows sender m (edited_message hash stored)
  deletes : Change rows sender m (deleted_message sender)
  pins : (pinned : Bool) (now : ℕ) → Change rows sender m (pinned_message pinned now)
  reacts : (emoji : Text) (r : Reaction) → Change rows sender m (reacted_message emoji r)

-- One write by a sender to a channel.
pub data Write (sender channel : ℕ) : Tables → Tables → Type 0 where
  elsewhere :
      {t u : Tables} → u.messages ≡ t.messages → u.channels ≡ t.channels → Write sender channel t u
  changes :
      {t : Tables} (m : Message) (fields : Message → Message)
      → find_message m.msg_hash t.messages ≡ some m
      → m.channel_id ≡ channel
      → Change t.channels sender m fields
      → Write sender channel t (record t { messages = change_message m.msg_hash fields t.messages })
  inserts :
      {t : Tables} (m : Message)
      → find_message m.msg_hash t.messages ≡ none
      → m.channel_id ≡ channel
      → m.seq ≡ none
      → Gated t.channels channel m.body
      → Write sender channel t (record t { messages = t.messages ++ m ∷ [] })
  numbers :
      {t : Tables} (row : Channel)
      → find_channel channel t.channels ≡ some row
      → Write sender channel t (record t { channels = raise_seq channel t.channels })
  inserts_numbered :
      {t : Tables} (m : Message) (row : Channel)
      → find_channel channel t.channels ≡ some row
      → find_message m.msg_hash t.messages ≡ none
      → m.channel_id ≡ channel
      → m.seq ≡ some (row.latest_seq + 1)
      → Gated t.channels channel m.body
      → Write sender channel t
          (record t { channels = raise_seq channel t.channels; messages = t.messages ++ m ∷ [] })

pub data Writes (sender channel : ℕ) : Tables → Tables → Type 0 where
  nothing : {t : Tables} → Writes sender channel t t
  also :
      {t u v : Tables}
      → Writes sender channel t u
      → Write sender channel u v
      → Writes sender channel t v
