-- ===== src/Federation/Pusher.antt =====
-- src/hokora/federation/pusher.py: the messages of a channel that are pushed to a peer. Packing a request
-- (`encode_sync_request` over msgpack) and what `RNS.Identity.recall` knows are parameters; times
-- are milliseconds. What a call sends, and the cursors it hands to the callback, are its outputs.

pub mod Acks
pub mod History
pub mod Later
pub mod SealedRows
use hokora.Base.{
  ℕ, ◌+◌, ◌-◌, ◌*◌, ◌^◌, Bool, true, false, ◌&&◌, ◌||◌, Option, none, some, List, [], ◌∷◌, leb, ltb,
  ◌==◌, take, length, if◌then◌else◌,
}
use hokora.Bytes.{Bytes}
use hokora.Result.{Result, ok, err}
use hokora.Db.{Message, Tables}
use hokora.Security.Ban.{is_blocked}
use hokora.Federation.Auth.{rns_public_key_size}
use hokora.Federation.EpochCrypto.{Primitives}
use hokora.Federation.EpochManager.{EpochManager, EpochError, is_active}
use hokora.Federation.EpochManager.Sealing.{encrypt}
use hokora.Federation.PushMessages.{PushedMessage}

abbrev pub push_batch_size : ℕ
push_batch_size = 15

abbrev pub retry_base : ℕ
retry_base = 30_000

pub record FederationPusher : Type 0 where
  pub peer_identity_hash : ℕ
  pub channel_id : ℕ
  pub node_identity_hash : ℕ
  pub link : Option ℕ
  pub has_sessions : Bool
  pub push_cursor : ℕ
  pub epoch_manager : Option EpochManager
  pub has_callback : Bool
  pub consecutive_failures : ℕ
  pub last_attempt : ℕ
  pub max_backoff : ℕ

pub data Output : Type 0 where
  sent : ℕ → Bytes → Output
  cursor_saved : ℕ → ℕ → ℕ → Output

abbrev pub set_link : FederationPusher → ℕ → FederationPusher
set_link p link = record p { link = some link }

-- A power of two that no float holds makes the product raise. The jitter is the number of
-- thousandths that the delay is multiplied with, 750 to 1250.
unfoldable pub should_retry : FederationPusher → ℕ → ℕ → Option Bool
should_retry p jitter now =
    if p.consecutive_failures == 0
    then some true
    else if leb 1025 p.consecutive_failures
    then none
    else (let wait = retry_base * 2 ^ (p.consecutive_failures - 1) in
        let delay = if leb wait p.max_backoff then wait else p.max_backoff in
        some (leb (delay * jitter) ((now - p.last_attempt) * 1000)))

-- `Message.channel_id == channel_id` and `Message.seq > since_seq`, with the number of the row.
abbrev pub seq_after : ℕ → Option ℕ → Option ℕ
seq_after since none = none
seq_after since (some n) = if ltb since n then some n else none

abbrev pub with_seq : Option ℕ → Message → List (ℕ × Message) → List (ℕ × Message)
with_seq none m rest = rest
with_seq (some n) m rest = (n, m) ∷ rest

unfoldable pub rows_after : ℕ → ℕ → List Message → List (ℕ × Message)
rows_after channel since [] = []
rows_after channel since (m ∷ ms) =
    let rest = rows_after channel since ms in
    if m.channel_id == channel then with_seq (seq_after since m.seq) m rest else rest

-- `order_by(Message.seq.asc())`
unfoldable pub insert_by_seq : ℕ → Message → List (ℕ × Message) → List (ℕ × Message)
insert_by_seq n m [] = (n, m) ∷ []
insert_by_seq n m ((k, x) ∷ rest) =
    let deeper = insert_by_seq n m rest in
    if leb n k then (n, m) ∷ ((k, x) ∷ rest) else (k, x) ∷ deeper

unfoldable pub by_seq : List (ℕ × Message) → List (ℕ × Message)
by_seq [] = []
by_seq ((n, m) ∷ rest) = insert_by_seq n m (by_seq rest)

-- Forward, without `before_seq`, as the pusher calls it.
unfoldable pub get_history : List Message → ℕ → ℕ → ℕ → List (ℕ × Message)
get_history ms channel since limit = take limit (by_seq (rows_after channel since ms))

abbrev pub greater : ℕ → ℕ → ℕ
greater a b = if ltb a b then b else a

unfoldable pub greatest_seq : ℕ → List (ℕ × Message) → ℕ
greatest_seq cursor [] = cursor
greatest_seq cursor ((n, m) ∷ rest) = greatest_seq (greater cursor n) rest

abbrev pub is_from : ℕ → Option ℕ → Bool
is_from peer none = false
is_from peer (some origin) = origin == peer

-- The peer's own messages are not sent back to it, and nothing of a banned sender is sent.
abbrev pub is_held_back : Tables → ℕ → Message → Bool
is_held_back t peer m = is_from peer m.origin_node || is_blocked t m.sender_hash

unfoldable pub to_push : Tables → ℕ → List (ℕ × Message) → List (ℕ × Message)
to_push t peer [] = []
to_push t peer ((n, m) ∷ rest) =
    let others = to_push t peer rest in if is_held_back t peer m then others else (n, m) ∷ others

abbrev pub full_key : Option Bytes → Option Bytes
full_key none = none
full_key (some key) = if length key == rns_public_key_size then some key else none

abbrev pub recalled : (ℕ → Option Bytes) → Option ℕ → Option Bytes
recalled recall none = none
recalled recall (some sender) = full_key (recall sender)

-- `signed` has the LXMF signature fields of a row, which the model of the table leaves out.
abbrev pub encode_message :
    (ℕ → Option Bytes) → (ℕ → Option Bytes × Option Bytes) → ℕ → ℕ × Message → PushedMessage
encode_message recall signed node (n, m) = record {
  msg_hash = m.msg_hash;
  sender_hash = m.sender_hash;
  seq = n;
  timestamp = m.timestamp;
  type = m.type;
  body = m.body;
  display_name = m.display_name;
  encrypted_body = none;
  encryption_nonce = none;
  encryption_epoch = none;
  lxmf_signed_part = (signed m.msg_hash).0;
  lxmf_signature = (signed m.msg_hash).1;
  sender_rns_public_key = recalled recall m.sender_hash;
  origin_node = some node;
}

unfoldable pub encode_all :
    (ℕ → Option Bytes)
    → (ℕ → Option Bytes × Option Bytes)
    → ℕ
    → List (ℕ × Message)
    → List PushedMessage
encode_all recall signed node [] = []
encode_all recall signed node (row ∷ rows) =
    encode_message recall signed node row ∷ encode_all recall signed node rows

abbrev pub Done : Type 0
Done = List Output × FederationPusher × Bool

abbrev pub failed : FederationPusher → ℕ → Done
failed p now =
    ([], record p { consecutive_failures = p.consecutive_failures + 1; last_attempt = now }, false)

abbrev pub saved : FederationPusher → ℕ → List Output
saved p n = if p.has_callback then cursor_saved p.peer_identity_hash p.channel_id n ∷ [] else []

-- Nothing of the history is left to push: the cursor passes what was held back.
abbrev pub pass : FederationPusher → ℕ → Done
pass p greatest =
    if ltb p.push_cursor greatest
    then (saved p greatest, record p { push_cursor = greatest; consecutive_failures = 0 }, true)
    else ([], record p { consecutive_failures = 0 }, true)

abbrev pub send_sealed : FederationPusher → ℕ → ℕ → Result EpochError Bytes × EpochManager → Done
send_sealed p link now (err e, manager) = failed (record p { epoch_manager = some manager }) now
send_sealed p link now (ok bytes, manager) = (
  sent link bytes ∷ [],
  record p { epoch_manager = some manager; consecutive_failures = 0 },
  true,
)

abbrev pub send_through : Primitives → FederationPusher → ℕ → ℕ → Bytes → Option EpochManager → Done
send_through c p link now request none =
    (sent link request ∷ [], record p { consecutive_failures = 0 }, true)
send_through c p link now request (some manager) =
    if is_active manager
    then send_sealed p link now (encrypt c manager request)
    else (sent link request ∷ [], record p { consecutive_failures = 0 }, true)

abbrev pub send_packed : Primitives → FederationPusher → ℕ → ℕ → Option Bytes → Done
send_packed c p link now none = failed p now
send_packed c p link now (some request) = send_through c p link now request p.epoch_manager

-- `pack` encodes the request for a channel; it may raise.
pub record Network : Type 0 where
  pub recall : ℕ → Option Bytes
  pub signed : ℕ → Option Bytes × Option Bytes
  pub pack : ℕ → ℕ → List PushedMessage → Option Bytes

abbrev pub push_rows :
    Primitives → Network → FederationPusher → ℕ → ℕ → ℕ → List (ℕ × Message) → Done
push_rows c net p link now greatest [] = pass p greatest
push_rows c net p link now greatest (row ∷ rows) = send_packed c p link now (
    net.pack p.channel_id p.node_identity_hash
      (encode_all net.recall net.signed p.node_identity_hash (row ∷ rows)))

abbrev pub push_on : Primitives → Network → Tables → FederationPusher → ℕ → Option ℕ → Bool → Done
push_on c net t p now none has_sessions = failed p now
push_on c net t p now (some link) false = failed p now
push_on c net t p now (some link) true =
    let history = get_history t.messages p.channel_id p.push_cursor push_batch_size in
    push_rows c net p link now (greatest_seq p.push_cursor history)
      (to_push t p.peer_identity_hash history)

unfoldable pub push_pending : Primitives → Network → Tables → FederationPusher → ℕ → Done
push_pending c net t p now = push_on c net t p now p.link p.has_sessions

unfoldable pub greatest : ℕ → List ℕ → ℕ
greatest n [] = n
greatest n (x ∷ xs) = greatest (greater n x) xs

unfoldable pub handle_push_ack : FederationPusher → List ℕ → List Output × FederationPusher
handle_push_ack p [] = ([], p)
handle_push_ack p (n ∷ received) =
    let last = greatest n received in
    if ltb p.push_cursor last then (saved p last, record p { push_cursor = last }) else ([], p)
