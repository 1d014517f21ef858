-- ===== src/Federation/Pusher/Later.antt =====
-- src/hokora/federation/pusher.py: what a pusher sends after an acknowledgement.
use hokora.Base.{
  ℕ, ◌≤◌, ◌≡◌, ◌≢◌, refl, ap, Bool, true, false, Option, none, some, List, [], ◌∷◌, ◌++◌, inl, inr,
  ◌⊎◌, Bool-cases, arith, ltb,
}
use hokora.Bytes.{Bytes}
use hokora.Result.{Result, ok, err}
use hokora.Db.{Message, Tables}
use hokora.Core.Processor.Sequences.{latest}
use hokora.Federation.Auth.{Identities}
use hokora.Federation.EpochCrypto.{Primitives}
use hokora.Federation.EpochManager.{EpochManager, EpochError, is_active}
use hokora.Federation.EpochManager.Sealing.{encrypt}
use hokora.Federation.PushMessages.{PushedMessage, Peer, PushState, PushAck, handle_push_messages}
use hokora.Federation.Pusher.{
  FederationPusher, Output, sent, cursor_saved, set_link, get_history, greatest_seq, to_push,
  encode_all, Done, saved, pass, send_sealed, send_through, send_packed, Network, push_rows,
  push_on, push_batch_size, push_pending, greatest, handle_push_ack,
}
use hokora.Federation.Pusher.History.{AllAbove, get_history-AllAbove, to_push-AllAbove, AllAbove-le}
use hokora.Federation.Pusher.Acks.{
  handle_push_messages-latest, handle_push_ack-In, handle_push_ack-le,
}

module _ (c : Primitives) (net : Network) where
  -- A request for rows with numbers above `lo`, as it is or sealed.
  abbrev pub SentAbove : ℕ → Bytes → Type 0
  SentAbove lo bytes =
      (channel : ℕ) × (node : ℕ) × (rows : List (ℕ × Message)) × (request : Bytes) × AllAbove lo
        rows
      × (net.pack channel node (encode_all net.recall net.signed node rows) ≡ some request)
      × ((bytes ≡ request)
          ⊎ ((manager : EpochManager) × ((encrypt c manager request).0 ≡ ok bytes)))

  abbrev pub AllSentAbove : ℕ → List Output → Type 0
  AllSentAbove lo [] = Unit
  AllSentAbove lo (sent link bytes ∷ outputs) = SentAbove lo bytes × AllSentAbove lo outputs
  AllSentAbove lo (cursor_saved peer channel n ∷ outputs) = AllSentAbove lo outputs

  AllSentAbove-append :
      (lo : ℕ) (xs ys : List Output)
      → AllSentAbove lo xs
      → AllSentAbove lo ys
      → AllSentAbove lo (xs ++ ys)
  AllSentAbove-append lo [] ys a b = b
  AllSentAbove-append lo (sent link bytes ∷ xs) ys a b = (a.0, AllSentAbove-append lo xs ys a.1 b)
  AllSentAbove-append lo (cursor_saved peer channel n ∷ xs) ys a b =
      AllSentAbove-append lo xs ys a b

  -- Pushes at any times over any tables, acknowledgements of any content, and new links.
  pub data Run : FederationPusher → List Output → FederationPusher → Type 0 where
    waits : {p : FederationPusher} → Run p [] p
    pushes :
        {p q : FederationPusher} {outputs : List Output} (t : Tables) (now : ℕ)
        → Run p outputs q
        → Run p (outputs ++ (push_pending c net t q now).0) (push_pending c net t q now).1
    hears :
        {p q : FederationPusher} {outputs : List Output} (received : List ℕ)
        → Run p outputs q
        → Run p (outputs ++ (handle_push_ack q received).0) (handle_push_ack q received).1
    relinks :
        {p q : FederationPusher} {outputs : List Output} (link : ℕ)
        → Run p outputs q
        → Run p outputs (set_link q link)

  -- What one call did: it sent nothing at or below `lo`, and did not take the cursor back.
  abbrev Fine : ℕ → ℕ → Done → Type 0
  Fine lo cursor (outputs, q, worked) = AllSentAbove lo outputs × (cursor ≤ q.push_cursor)

  saved-above : (lo n : ℕ) (p : FederationPusher) → AllSentAbove lo (saved p n)
  saved-above lo n p = elim (Bool-cases p.has_callback) [
    | inl called ↦ rw called tt
    | inr alone ↦ rw alone tt
  ]

  module _ (lo : ℕ) (p : FederationPusher) (link now : ℕ) (rows : List (ℕ × Message))
      (above : AllAbove lo rows) where
    send_through-Fine :
        (request : Bytes) (manager : Option EpochManager)
        → net.pack p.channel_id p.node_identity_hash
            (encode_all net.recall net.signed p.node_identity_hash rows)
          ≡ some request
        → Fine lo p.push_cursor (send_through c p link now request manager)
    send_through-Fine request none packed = (
      ((p.channel_id, p.node_identity_hash, rows, request, above, packed, inl refl), tt),
      omega arith,
    )
    send_through-Fine request (some manager) packed = elim (Bool-cases (is_active manager)) [
      | inr idle ↦ rw idle (
        ((p.channel_id, p.node_identity_hash, rows, request, above, packed, inl refl), tt),
        omega arith,
      )
      | inl active ↦ rw active (sealed (encrypt c manager request) refl)
    ]
      where
        sealed :
            (r : Result EpochError Bytes × EpochManager)
            → encrypt c manager request ≡ r
            → Fine lo p.push_cursor (send_sealed p link now r)
        sealed (err e, after) h = (tt, omega arith)
        sealed (ok bytes, after) h = (
          (
            (
              p.channel_id,
              p.node_identity_hash,
              rows,
              request,
              above,
              packed,
              inr (manager, ap (λ (x : Result EpochError Bytes × EpochManager). x.0) h),
            ),
            tt,
          ),
          omega arith,
        )

    send_packed-Fine :
        (o : Option Bytes)
        → net.pack p.channel_id p.node_identity_hash
            (encode_all net.recall net.signed p.node_identity_hash rows)
          ≡ o
        → Fine lo p.push_cursor (send_packed c p link now o)
    send_packed-Fine none packed = (tt, omega arith)
    send_packed-Fine (some request) packed = send_through-Fine request p.epoch_manager packed

  pass-Fine : (lo n : ℕ) (p : FederationPusher) → Fine lo p.push_cursor (pass p n)
  pass-Fine lo n p = elim (Bool-cases (ltb p.push_cursor n)) [
    | inl further ↦ rw further (saved-above lo n p, ground arith)
    | inr behind ↦ rw behind (tt, omega arith)
  ]

  push_rows-Fine :
      (lo : ℕ) (p : FederationPusher) (link now n : ℕ) (rows : List (ℕ × Message))
      → AllAbove lo rows
      → Fine lo p.push_cursor (push_rows c net p link now n rows)
  push_rows-Fine lo p link now n [] a = pass-Fine lo n p
  push_rows-Fine lo p link now n (row ∷ rows) a =
      send_packed-Fine lo p link now (row ∷ rows) a _ refl

  push_on-Fine :
      (lo : ℕ) (t : Tables) (p : FederationPusher) (now : ℕ) (link : Option ℕ) (sessions : Bool)
      → lo ≤ p.push_cursor
      → Fine lo p.push_cursor (push_on c net t p now link sessions)
  push_on-Fine lo t p now none sessions h = (tt, omega arith)
  push_on-Fine lo t p now (some link) false h = (tt, omega arith)
  push_on-Fine lo t p now (some link) true h =
      let history = get_history t.messages p.channel_id p.push_cursor push_batch_size in
      let above = get_history-AllAbove t.messages p.channel_id p.push_cursor push_batch_size in
      push_rows-Fine lo p link now (greatest_seq p.push_cursor history)
        (to_push t p.peer_identity_hash history)
        (to_push-AllAbove t p.peer_identity_hash lo history
          (AllAbove-le lo p.push_cursor history h above))

  ack-above :
      (lo : ℕ) (p : FederationPusher) (received : List ℕ)
      → AllSentAbove lo (handle_push_ack p received).0
  unfolding handle_push_ack
  ack-above lo p [] = tt
  ack-above lo p (x ∷ xs) = elim (Bool-cases (ltb p.push_cursor (greatest x xs))) [
    | inl further ↦ rw further (saved-above lo (greatest x xs) p)
    | inr behind ↦ rw behind tt
  ]

  -- Once the cursor is at a number, nothing up to it is sent.
  Run-above :
      {p q : FederationPusher} {outputs : List Output} (lo : ℕ)
      → Run p outputs q
      → lo ≤ p.push_cursor
      → AllSentAbove lo outputs × (lo ≤ q.push_cursor)
  unfolding push_pending
  Run-above lo waits h = (tt, h)
  Run-above lo (pushes {q = q} {outputs = outputs} t now run) h =
      let (above, reached) = Run-above lo run h in
      let (above', cursor) = push_on-Fine lo t q now q.link q.has_sessions reached in
      (AllSentAbove-append lo outputs _ above above', omega arith)
  Run-above lo (hears {q = q} {outputs = outputs} received run) h =
      let (above, reached) = Run-above lo run h in
      let cursor = handle_push_ack-le q received in
      (AllSentAbove-append lo outputs _ above (ack-above lo q received), omega arith)
  Run-above lo (relinks link run) h = Run-above lo run h

-- A push got something stored at a peer, whose last number for the channel rose, and the pusher heard
-- the acknowledgement. From then on, whatever pushes over whatever tables, acknowledgements and new
-- links follow, every request that the pusher sends is made of messages with numbers above the
-- peer's last number after that push: what the node has up to that number in its own count and has
-- not pushed, the pusher does not send.
pub acknowledged_skips :
    (k : Identities) (require_signed : Bool) (peers : List Peer) (channel node now : ℕ)
    (messages : List PushedMessage) (s s' : PushState) (ack : PushAck) (c : Primitives)
    (net : Network) (p q : FederationPusher) (outputs : List Output)
    → handle_push_messages k require_signed peers (some channel) messages (some node) now s
      ≡ (ok ack, s')
    → latest channel s'.tables.channels ≢ latest channel s.tables.channels
    → Run c net (handle_push_ack p ack.received).1 outputs q
    → AllSentAbove c net (latest channel s'.tables.channels) outputs
acknowledged_skips k require_signed peers channel node now messages s s' ack c net p q outputs ends
      stored run =
    let last = latest channel s'.tables.channels in
    let listed =
      handle_push_messages-latest k require_signed peers channel node now messages s s' ack ends
        stored in
    (Run-above c net last run (handle_push_ack-In p last ack.received listed)).0
