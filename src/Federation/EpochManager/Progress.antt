-- ===== src/Federation/EpochManager/Progress.antt =====
-- The responder only ever moves to later epochs.
use hokora.Base.{
  ℕ, ◌≤◌, ◌<◌, ◌≡◌, ◌⊎◌, refl, sym, ap, ◌∙◌, inl, inr, Bool, true, none, some, arith, Option-cases,
}
use hokora.Base.Keys.{bytes_key, same_bytes_iff}
use hokora.Bytes.{Bytes}
use hokora.Result.{Result, ok, err}
use hokora.Federation.EpochWire.{EpochRotate, decode_epoch_rotate}
use hokora.Federation.EpochCrypto.{Primitives}
use hokora.Federation.EpochManager.{
  EpochManager, regression, rotate_signed, check_rotate, accept_rotate, handle_epoch_rotate,
  check_ack, accept_ack, handle_epoch_rotate_ack, activate_epoch,
}
use hokora.Federation.EpochManager.Sealing.{encrypt, decrypt, open_frame}

-- What the checks of a rotation establish.
pub record Accepted (m : EpochManager) (bytes : Bytes) : Type 0 where
  pub frame : EpochRotate
  pub validate : Bytes → Bytes → Bool
  pub decoded : decode_epoch_rotate bytes ≡ ok frame
  pub known : m.peer_validate ≡ some validate
  pub signed :
      validate frame.signature
        (rotate_signed frame.epoch_id frame.epoch_duration frame.eph_pubkey frame.prev_epoch_hash)
      ≡ true
  pub newer : m.current_epoch_id < frame.epoch_id
  pub chained : frame.prev_epoch_hash ≡ m.last_chain_hash

Result-cases {ℓ κ} :
    {E : Type ℓ} {A : Type κ} (r : Result E A) → ((e : E) × (r ≡ err e)) ⊎ ((a : A) × (r ≡ ok a))
Result-cases (err e) = inl (e, refl)
Result-cases (ok a) = inr (a, refl)

check_rotate-Accepted :
    (c : Primitives) (m : EpochManager) (bytes private : Bytes) {frame : EpochRotate}
    {keys : Bytes × Bytes}
    → check_rotate c m bytes private ≡ ok (frame, keys)
    → (a : Accepted m bytes) × (a.frame ≡ frame)
unfolding check_rotate
check_rotate-Accepted c m bytes private {frame} h =
    elim (Result-cases (decode_epoch_rotate bytes)) [
      | inl (e, d) ↦ absurd (ground arith)
      | inr (f, d) ↦ elim (Option-cases m.peer_validate) [
        | inl v ↦ absurd (ground arith)
        | inr (validate, v) ↦ (
          record {
            frame = f;
            validate = validate;
            decoded = d;
            known = v;
            signed = ground arith;
            newer = ground arith;
            chained = ground (arith, same_bytes_iff f.prev_epoch_hash m.last_chain_hash);
          },
          ground arith,
        )
      ]
    ]

-- A manager before and after a rotation frame that it acted on.
pub record Advanced (m m' : EpochManager) (bytes prefix : Bytes) : Type 0 where
  pub accepted : Accepted m bytes
  pub epoch : m'.current_epoch_id ≡ accepted.frame.epoch_id
  pub counter : m'.message_counter ≡ 0
  pub fresh_prefix : m'.nonce_prefix ≡ prefix
  pub kept_key : m'.prev_recv_key ≡ m.recv_key
  pub kept_epoch : m'.prev_epoch_id ≡ m.current_epoch_id
  pub peer : m'.peer_validate ≡ m.peer_validate
  pub pending : m'.pending_private_key ≡ m.pending_private_key

handled-Advanced :
    (c : Primitives) (m : EpochManager) (bytes private prefix : Bytes) (now : ℕ)
    {frame : EpochRotate} {keys : Bytes × Bytes}
    → check_rotate c m bytes private ≡ ok (frame, keys)
    → Advanced m (handle_epoch_rotate c m bytes private prefix now).1 bytes prefix
unfolding handle_epoch_rotate accept_rotate activate_epoch
handled-Advanced c m bytes private prefix now {frame} {keys} h =
    let (a, same) = check_rotate-Accepted c m bytes private h in
    rw after (record {
      accepted = a;
      epoch = sym (ap (λ (f : EpochRotate). f.epoch_id) same);
      counter = refl;
      fresh_prefix = refl;
      kept_key = refl;
      kept_epoch = refl;
      peer = refl;
      pending = refl;
    })
  where
    after :
        (handle_epoch_rotate c m bytes private prefix now).1
        ≡ activate_epoch c m frame.epoch_id keys.1 keys.0 keys.0 prefix now
    after = ap (λ r. (accept_rotate c m private prefix now r).1) h

-- A rotation frame changes nothing, or it is signed by the peer, newer than the current epoch and
-- bound to the chain hash; then its epoch is the current one, the message counter starts over
-- under the fresh prefix, and the old receive key is kept for frames that are under way.
pub handle_epoch_rotate_cases :
    (c : Primitives) (m : EpochManager) (bytes private prefix : Bytes) (now : ℕ)
    → let m' = (handle_epoch_rotate c m bytes private prefix now).1 in
      (m' ≡ m) ⊎ Advanced m m' bytes prefix
handle_epoch_rotate_cases c m bytes private prefix now =
    elim (Result-cases (check_rotate c m bytes private)) [
      | inl (e, h) ↦ inl (unfold handle_epoch_rotate accept_rotate in rw h refl)
      | inr ((frame, keys), h) ↦ inr (handled-Advanced c m bytes private prefix now h)
    ]

-- What a responder does: it never asks for a rotation itself.
pub data Served (c : Primitives) (m : EpochManager) : EpochManager → Type 0 where
  idle : Served c m m
  rotated :
      {n : EpochManager} (bytes private prefix : Bytes) (now : ℕ)
      → Served c m n
      → Served c m (handle_epoch_rotate c n bytes private prefix now).1
  acked :
      {n : EpochManager} (bytes prefix : Bytes) (now : ℕ)
      → Served c m n
      → Served c m (handle_epoch_rotate_ack c n bytes prefix now).1
  sealed : {n : EpochManager} (text : Bytes) → Served c m n → Served c m (encrypt c n text).1
  opened : {n : EpochManager} (bytes : Bytes) → Served c m n → Served c m (decrypt c n bytes).1

-- How a later state of a responder stands to an earlier one.
pub record Later (m n : EpochManager) : Type 0 where
  pub not_older : m.current_epoch_id ≤ n.current_epoch_id
  pub same_peer : n.peer_validate ≡ m.peer_validate
  pub none_pending : n.pending_private_key ≡ none

ack_refused :
    (c : Primitives) (m : EpochManager) (bytes prefix : Bytes) (now : ℕ)
    → m.pending_private_key ≡ none
    → (handle_epoch_rotate_ack c m bytes prefix now).1 ≡ m
unfolding handle_epoch_rotate_ack accept_ack check_ack
ack_refused c m bytes prefix now h = ground arith

encrypt_same :
    (c : Primitives) (m : EpochManager) (text : Bytes)
    → let m' = (encrypt c m text).1 in
      (m'.current_epoch_id ≡ m.current_epoch_id)
      × (m'.peer_validate ≡ m.peer_validate)
      × (m'.pending_private_key ≡ m.pending_private_key)
unfolding encrypt
encrypt_same c m text = (ground arith, ground arith, ground arith)

decrypt_same :
    (c : Primitives) (m : EpochManager) (bytes : Bytes)
    → let m' = (decrypt c m bytes).1 in
      (m'.current_epoch_id ≡ m.current_epoch_id)
      × (m'.peer_validate ≡ m.peer_validate)
      × (m'.pending_private_key ≡ m.pending_private_key)
unfolding decrypt open_frame
decrypt_same c m bytes = (ground arith, ground arith, ground arith)

rotate_Later :
    (c : Primitives) {m n : EpochManager} (bytes private prefix : Bytes) (now : ℕ)
    → Later m n
    → Later m (handle_epoch_rotate c n bytes private prefix now).1
rotate_Later c {m} {n} bytes private prefix now l =
    elim (handle_epoch_rotate_cases c n bytes private prefix now) [
      | inl same ↦ rw same l
      | inr d ↦ record {
        not_older = omega (arith, l.not_older, d.accepted.newer, d.epoch);
        same_peer = d.peer ∙ l.same_peer;
        none_pending = d.pending ∙ l.none_pending;
      }
    ]

Served-Later :
    {c : Primitives} {m n : EpochManager} → m.pending_private_key ≡ none → Served c m n → Later m n
Served-Later h idle = record { not_older = omega arith; same_peer = refl; none_pending = h }
Served-Later {c} h (rotated bytes private prefix now s) =
    rotate_Later c bytes private prefix now (Served-Later h s)
Served-Later {c} h (acked {n = n} bytes prefix now s) =
    let l = Served-Later h s in rw (ack_refused c n bytes prefix now l.none_pending) l
Served-Later {c} h (sealed {n = n} text s) =
    let l = Served-Later h s in
    let (e, p, k) = encrypt_same c n text in
    record {
      not_older = omega (arith, l.not_older, e);
      same_peer = p ∙ l.same_peer;
      none_pending = k ∙ l.none_pending;
    }
Served-Later {c} h (opened {n = n} bytes s) =
    let l = Served-Later h s in
    let (e, p, k) = decrypt_same c n bytes in
    record {
      not_older = omega (arith, l.not_older, e);
      same_peer = p ∙ l.same_peer;
      none_pending = k ∙ l.none_pending;
    }

-- A frame that is not newer than the current epoch, signed or not.
stale_refused :
    (c : Primitives) (m n : EpochManager) (bytes private prefix : Bytes) (now : ℕ)
    (a : Accepted m bytes)
    → n.peer_validate ≡ m.peer_validate
    → a.frame.epoch_id ≤ n.current_epoch_id
    → handle_epoch_rotate c n bytes private prefix now ≡ (err regression, n)
unfolding handle_epoch_rotate
stale_refused c m n bytes private prefix now a peer old = rw refused (unfold accept_rotate in refl)
  where
    refused : check_rotate c n bytes private ≡ err regression
    refused = unfold check_rotate in ground (arith, a.decoded, a.known, a.signed, peer)

acted :
    (c : Primitives) (m : EpochManager) (bytes private prefix : Bytes) (now : ℕ) (reply : Bytes)
    → (handle_epoch_rotate c m bytes private prefix now).0 ≡ ok reply
    → Advanced m (handle_epoch_rotate c m bytes private prefix now).1 bytes prefix
acted c m bytes private prefix now reply e = elim (Result-cases (check_rotate c m bytes private)) [
  | inl (x, h) ↦ absurd (unfold handle_epoch_rotate accept_rotate in ground arith)
  | inr ((frame, keys), h) ↦ handled-Advanced c m bytes private prefix now h
]

-- A rotation frame that a responder without a pending key pair once acted on is refused from then
-- on as a regression, and the responder left as it is, whatever it rotated, acknowledged, sealed
-- or opened in between.
pub rotation_replay_refused :
    (c : Primitives) (m n : EpochManager) (bytes private private' prefix prefix' : Bytes)
    (now now' : ℕ) (reply : Bytes)
    → m.pending_private_key ≡ none
    → (handle_epoch_rotate c m bytes private prefix now).0 ≡ ok reply
    → Served c (handle_epoch_rotate c m bytes private prefix now).1 n
    → handle_epoch_rotate c n bytes private' prefix' now' ≡ (err regression, n)
rotation_replay_refused c m n bytes private private' prefix prefix' now now' reply h e s =
    let d = acted c m bytes private prefix now reply e in
    let l = Served-Later (d.pending ∙ h) s in
    stale_refused c m n bytes private' prefix' now' d.accepted (l.same_peer ∙ d.peer)
      (omega (arith, l.not_older, d.epoch))
