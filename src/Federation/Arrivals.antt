-- ===== src/Federation/Arrivals.antt =====
-- What comes into a node's tables: envelopes of its own users (src/hokora/core/message.py), pushes of its
-- peers (src/hokora/protocol/handlers/federation.py) and messages that its mirrors receive
-- (src/hokora/federation/mirror_ingestor.py), in any order.
use hokora.Base.{ℕ, Bool, Option, some, List}
use hokora.Bytes.{Bytes}
use hokora.Text.{Text}
use hokora.Db.{Tables}
use hokora.Core.Processor.Envelope.{MessageEnvelope, MessageProcessor, State}
use hokora.Core.Processor.Ingest.{ingest}
use hokora.Core.Processor.Sequences.{InOrder}
use hokora.Core.Processor.Secrecy.{IsSecretIn, Writes-secret, ingest-IsSecretIn}
use hokora.Core.Processor.Numbering.{Writes-InOrder, ingest-InOrder}
use hokora.Federation.Auth.{Identities}
use hokora.Federation.PushMessages.{PushedMessage, Peer, PushState, handle_push_messages}
use hokora.Federation.PushMessages.Sound.{handle_push_messages-Writes}
use hokora.Federation.MirrorIngestor.{ingest_mirrored}
use hokora.Federation.MirrorIngestor.Mirrored.{ingest_mirrored-Writes}

-- One arrival, with the tables before and after it; the rest of the state is whatever it is.
pub data Arrival : Tables → Tables → Type 0 where
  own :
      (p : MessageProcessor) (s : State) (e : MessageEnvelope) (now : ℕ) (iv : Bytes)
      (text : Bool → Text)
      → Arrival s.tables (ingest p s e now iv text).1.tables
  pushed :
      (k : Identities) (require_signed : Bool) (peers : List Peer) (channel : ℕ)
      (messages : List PushedMessage) (node now : ℕ) (s : PushState)
      → Arrival s.tables
          (handle_push_messages k require_signed peers
            (some channel)
            messages
            (some node)
            now
            s).1.tables
  mirrored :
      (k : Identities) (require_signed : Bool) (s : PushState) (channel : ℕ) (m : PushedMessage)
      (peer : Option ℕ) (now : ℕ)
      → Arrival s.tables (ingest_mirrored k require_signed s channel m peer now).tables

pub data Arrivals : Tables → Tables → Type 0 where
  none_yet : {t : Tables} → Arrivals t t
  then : {t u v : Tables} → Arrivals t u → Arrival u v → Arrivals t v

abbrev pub IsSound : Tables → Type 0
IsSound t = InOrder t × IsSecretIn t.channels t.messages

Arrival-IsSound : {t u : Tables} → Arrival t u → IsSound t → IsSound u
Arrival-IsSound (own p s e now iv text) (order, secret) =
    (ingest-InOrder p s e now iv text order, ingest-IsSecretIn p s e now iv text secret)
Arrival-IsSound (pushed k require_signed peers channel messages node now s) (order, secret) =
    let writes = handle_push_messages-Writes k require_signed peers channel messages node now s in
    (Writes-InOrder writes order, Writes-secret writes secret)
Arrival-IsSound (mirrored k require_signed s channel m peer now) (order, secret) =
    let writes = ingest_mirrored-Writes 0 channel m peer now k require_signed s in
    (Writes-InOrder writes order, Writes-secret writes secret)

-- Whatever arrives from the node's own users, from pushing peers and through mirrors, and in whatever
-- order: the numbers of each channel's messages rise strictly in the order in which they were
-- stored, up to the last that was assigned, and no row of a sealed channel has a text, if both
-- was so at first.
pub Arrivals-IsSound : {t u : Tables} → Arrivals t u → IsSound t → IsSound u
Arrivals-IsSound none_yet sound = sound
Arrivals-IsSound (then arrivals arrival) sound =
    Arrival-IsSound arrival (Arrivals-IsSound arrivals sound)
