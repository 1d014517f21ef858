-- ===== src/Federation/Pusher/Acks.antt =====
-- src/hokora/federation/pusher.py and src/hokora/protocol/handlers/federation.py: the numbers that a push is
-- acknowledged with, and what the pusher makes of them.
use hokora.Base.{
  ℕ, ◌+◌, ◌≤◌, ◌≡◌, ◌≢◌, refl, Bool, Option, some, String, List, [], ◌∷◌, ◌++◌, inl, inr, ◌⊎◌,
  Bool-cases, Option-cases, arith, ltb, In, here, In-cons, In-append_left, In-append_right,
}
use hokora.Dict.{Dict}
use hokora.Result.{Result, ok, err}
use hokora.Db.{Channel}
use hokora.Db.Messages.{find_channel, raise_seq}
use hokora.Core.Sequencer.{next_seq}
use hokora.Core.Processor.Sequences.{latest, latest-raise}
use hokora.Federation.Auth.{Identities}
use hokora.Federation.PushMessages.{
  PushedMessage, Peer, PushState, PushError, PushAck, Verdict, known, banned, refused, store,
  act_on, verdict, store_pushed, is_trusted, receive_all, handle_push_messages,
}
use hokora.Federation.Pusher.{FederationPusher, greater, greatest, handle_push_ack}

-- Nothing was stored, or the last number of the channel is in the acknowledgement.
abbrev Acked : ℕ → ℕ → Result PushError PushAck × PushState → Type 0
Acked channel before (err e, s) = Unit
Acked channel before (ok ack, s) =
    (latest channel s.tables.channels ≡ before) ⊎ In (latest channel s.tables.channels) ack.received

module _ (channel before node now : ℕ) where
  more :
      (s : PushState) (ack : PushAck) (n : ℕ)
      → Acked channel before (ok ack, s)
      → Acked channel before (ok (record ack { received = ack.received ++ n ∷ [] }), s)
  more s ack n (inl same) = inl same
  more s ack n (inr listed) = inr (In-append_left (n ∷ []) listed)

  act_on-Acked :
      (s : PushState) (ack : PushAck) (m : PushedMessage) (v : Verdict × Dict String ℕ)
      → Acked channel before (ok ack, s)
      → Acked channel before (act_on s ack m channel node now v)
  unfolding store_pushed next_seq
  act_on-Acked s ack m (known, counts) a = more s ack m.seq a
  act_on-Acked s ack m (banned, counts) a = a
  act_on-Acked s ack m (refused, counts) a = a
  act_on-Acked s ack m (store stored, counts) a =
      elim (Option-cases (find_channel channel s.tables.channels)) [
        | inl missing ↦ rw missing tt
        | inr (row, found) ↦
            let raised : latest channel (raise_seq channel s.tables.channels) ≡ row.latest_seq + 1 =
              ground (arith, latest-raise channel channel s.tables.channels row found) in
            rw (found, raised) (inr (In-append_right ack.received here))
      ]

  receive_all-Acked :
      (k : Identities) (require_signed : Bool) (found : Option Channel)
      (messages : List PushedMessage) (r : Result PushError PushAck × PushState)
      → Acked channel before r
      → Acked channel before (receive_all k require_signed channel found node now messages r)
  unfolding receive_all
  receive_all-Acked k require_signed found messages (err e, s) a = tt
  receive_all-Acked k require_signed found [] (ok ack, s) a = a
  receive_all-Acked k require_signed found (m ∷ messages) (ok ack, s) a =
      receive_all-Acked k require_signed found messages _
        (act_on-Acked s ack m (verdict k require_signed found s m) a)

handle-Acked :
    (k : Identities) (require_signed : Bool) (peers : List Peer) (channel node now : ℕ)
    (messages : List PushedMessage) (s : PushState)
    → Acked channel
        (latest channel s.tables.channels)
        (handle_push_messages k require_signed peers (some channel) messages (some node) now s)
unfolding handle_push_messages
handle-Acked k require_signed peers channel node now messages s =
    elim (Bool-cases (is_trusted node peers)) [
      | inr stranger ↦ rw stranger tt
      | inl trusted ↦ rw trusted (
          receive_all-Acked channel _ node now k require_signed
            (find_channel channel s.tables.channels) messages _ (inl refl))
    ]

-- A push that raised the channel's last number is acknowledged with that number, among others.
pub handle_push_messages-latest :
    (k : Identities) (require_signed : Bool) (peers : List Peer) (channel node now : ℕ)
    (messages : List PushedMessage) (s s' : PushState) (ack : PushAck)
    → handle_push_messages k require_signed peers (some channel) messages (some node) now s
      ≡ (ok ack, s')
    → latest channel s'.tables.channels ≢ latest channel s.tables.channels
    → In (latest channel s'.tables.channels) ack.received
handle_push_messages-latest k require_signed peers channel node now messages s s' ack ends stored =
    let acked = handle-Acked k require_signed peers channel node now messages s in
    let a : Acked channel (latest channel s.tables.channels) (ok ack, s') = rw ends at acked in
    elim a [ inl same ↦ absurd (stored same) | inr listed ↦ listed ]

greatest-le : (n : ℕ) (xs : List ℕ) → n ≤ greatest n xs
unfolding greatest
greatest-le n [] = omega arith
greatest-le n (x ∷ xs) = ground (arith, greatest-le (greater n x) xs)

greatest-In : (n x : ℕ) (xs : List ℕ) → In x xs → x ≤ greatest n xs
unfolding greatest
greatest-In n x [] i = elim i [ ]
greatest-In n x (y ∷ ys) i = elim (In-cons i) [
  | inl same ↦ ground (arith, greatest-le (greater n y) ys, same)
  | inr later ↦ greatest-In (greater n y) x ys later
]

-- The cursor is at least every number of an acknowledgement.
pub handle_push_ack-In :
    (p : FederationPusher) (n : ℕ) (received : List ℕ)
    → In n received
    → n ≤ (handle_push_ack p received).1.push_cursor
unfolding handle_push_ack
handle_push_ack-In p n [] i = elim i [ ]
handle_push_ack-In p n (x ∷ xs) i =
    let reached : n ≤ greatest x xs = elim (In-cons i) [
      | inl same ↦ ground (arith, greatest-le x xs, same)
      | inr later ↦ greatest-In x n xs later
    ] in
    elim (Bool-cases (ltb p.push_cursor (greatest x xs))) [
      | inl further ↦ rw further reached
      | inr behind ↦ rw behind (ground arith)
    ]

-- An acknowledgement never takes the cursor back.
pub handle_push_ack-le :
    (p : FederationPusher) (received : List ℕ)
    → p.push_cursor ≤ (handle_push_ack p received).1.push_cursor
unfolding handle_push_ack
handle_push_ack-le p [] = omega arith
handle_push_ack-le p (x ∷ xs) = elim (Bool-cases (ltb p.push_cursor (greatest x xs))) [
  | inl further ↦ rw further (ground arith)
  | inr behind ↦ rw behind (omega arith)
]
