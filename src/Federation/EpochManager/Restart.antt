-- ===== src/Federation/EpochManager/Restart.antt =====
-- src/hokora/federation/epoch_manager.py, `persist_state` and `load_state`: what of a manager is stored
-- and what a restarted daemon reads back. The row of one peer stands for the database, and a
-- stored NULL is `none`. The nonces that `wrap_key` draws are arguments.
use hokora.Base.{
  ℕ, ◌≡◌, refl, sym, ap, ◌∙◌, Bool, true, false, Option, none, some, [], ◌∷◌, ◌++◌, arith, length,
  replicate, drop,
}
use hokora.Bytes.{Bytes, take-append, drop-join, join}
use hokora.Result.{ok}
use hokora.Federation.EpochCrypto.{Primitives, wrap_key, unwrap_key, wrap_label, build_nonce}
use hokora.Federation.EpochManager.{EpochManager}
use hokora.Federation.EpochManager.Sealing.{encrypt}
use hokora.Federation.EpochManager.Delivery.{IsAuthentic}
use hokora.Federation.EpochManager.Messages.{nonce_in, nonce_in-encrypt}

-- src/hokora/db/models.py, `FederationEpochState`
pub record EpochState : Type 0 where
  pub stored_epoch_id : ℕ
  pub stored_duration : ℕ
  pub stored_is_initiator : Bool
  pub stored_start_time : Option ℕ
  pub current_key_send : Option Bytes
  pub current_key_recv : Option Bytes
  pub stored_nonce_prefix : Option Bytes
  pub stored_counter : ℕ
  pub stored_chain_hash : Option Bytes

-- `if self._send_key: wrap_key(kek, raw) if kek else raw`
unfoldable pub stored_key : Primitives → Option Bytes → Bytes → Option Bytes → Option Bytes
stored_key c kek nonce none = none
stored_key c kek nonce (some []) = none
stored_key c none nonce (some (b ∷ bs)) = some (b ∷ bs)
stored_key c (some k) nonce (some (b ∷ bs)) = some (wrap_key c nonce k (b ∷ bs))

-- `value or None`
abbrev pub or_none : Bytes → Option Bytes
or_none [] = none
or_none (b ∷ bs) = some (b ∷ bs)

abbrev pub value_or : Option Bytes → Bytes → Bytes
value_or none d = d
value_or (some []) d = d
value_or (some (b ∷ bs)) d = b ∷ bs

abbrev pub time_or_zero : Option ℕ → ℕ
time_or_zero none = 0
time_or_zero (some t) = t

unfoldable pub persist_state : Primitives → Option Bytes → Bytes → Bytes → EpochManager → EpochState
persist_state c kek nonce_send nonce_recv m = record {
  stored_epoch_id = m.current_epoch_id;
  stored_duration = m.epoch_duration;
  stored_is_initiator = m.is_initiator;
  stored_start_time = some m.epoch_start_time;
  current_key_send = stored_key c kek nonce_send m.send_key;
  current_key_recv = stored_key c kek nonce_recv m.recv_key;
  stored_nonce_prefix = or_none m.nonce_prefix;
  stored_counter = m.message_counter;
  stored_chain_hash = some m.last_chain_hash;
}

-- A stored key that does not unwrap leaves no key; where none is stored the old one stays.
unfoldable pub loaded_key : Primitives → Option Bytes → Option Bytes → Option Bytes → Option Bytes
loaded_key c kek none old = old
loaded_key c kek (some []) old = old
loaded_key c none (some (b ∷ bs)) old = some (b ∷ bs)
loaded_key c (some k) (some (b ∷ bs)) old = unwrap_key c k (b ∷ bs)

unfoldable pub load_state :
    Primitives → Option Bytes → EpochManager → Option EpochState → EpochManager
load_state c kek m none = m
load_state c kek m (some state) = record m {
  current_epoch_id = state.stored_epoch_id;
  epoch_duration = state.stored_duration;
  is_initiator = state.stored_is_initiator;
  epoch_start_time = time_or_zero state.stored_start_time;
  send_key = loaded_key c kek state.current_key_send m.send_key;
  recv_key = loaded_key c kek state.current_key_recv m.recv_key;
  nonce_prefix = value_or state.stored_nonce_prefix [];
  message_counter = state.stored_counter;
  last_chain_hash = value_or state.stored_chain_hash (replicate 32 0);
}

-- A key is unset or has bytes.
abbrev pub proper : Option Bytes → Bool
proper none = true
proper (some []) = false
proper (some (b ∷ bs)) = true

module _ (c : Primitives) (auth : IsAuthentic c) where
  unwrap-wrap :
      (nonce kek key : Bytes)
      → length nonce ≡ 24
      → unwrap_key c kek (wrap_key c nonce kek key) ≡ some key
  unfolding unwrap_key wrap_key join
  unwrap-wrap nonce kek key h =
      let sealed = c.aead_encrypt kek nonce key wrap_label in
      ap (λ n. c.aead_decrypt kek n (drop 24 (nonce ++ sealed)) wrap_label)
        (take-append 24 nonce sealed h)
      ∙ ap (λ t. c.aead_decrypt kek nonce t wrap_label)
          (drop-join 24 (nonce ∷ []) sealed (omega (arith, h)))
      ∙ auth.opens kek nonce key wrap_label

  loaded-wrap :
      (nonce kek key : Bytes)
      → length nonce ≡ 24
      → loaded_key c (some kek) (some (wrap_key c nonce kek key)) none ≡ some key
  unfolding loaded_key unwrap_key wrap_key
  loaded-wrap [] kek key h = absurd (omega arith)
  loaded-wrap (b ∷ nonce) kek key h = unwrap-wrap (b ∷ nonce) kek key h

  loaded-stored :
      (kek : Option Bytes) (nonce : Bytes) (key : Option Bytes)
      → length nonce ≡ 24
      → proper key ≡ true
      → loaded_key c kek (stored_key c kek nonce key) none ≡ key
  unfolding stored_key loaded_key
  loaded-stored kek nonce none h p = refl
  loaded-stored kek nonce (some []) h p = absurd (ground arith)
  loaded-stored none nonce (some (b ∷ bs)) h p = refl
  loaded-stored (some k) nonce (some (b ∷ bs)) h p = loaded-wrap nonce k (b ∷ bs) h

value_or-or_none : (b : Bytes) → value_or (or_none b) [] ≡ b
value_or-or_none [] = refl
value_or-or_none (b ∷ bs) = refl

value_or-some : (b d : Bytes) → length b ≡ 32 → value_or (some b) d ≡ b
value_or-some [] d h = absurd (omega arith)
value_or-some (b ∷ bs) d h = refl

-- A fresh manager without keys that loads the row that a manager stored under the same
-- key-encryption key has the epoch, the keys, the nonce prefix, the counter, the chain hash, the
-- times and the role of the one that stored it, if the AEAD opens what it seals, the wrapping
-- nonces have 24 bytes, no key is empty and the chain hash has 32 bytes.
pub load-persist :
    (c : Primitives) (kek : Option Bytes) (nonce_send nonce_recv : Bytes) (m fresh : EpochManager)
    → IsAuthentic c
    → length nonce_send ≡ 24
    → length nonce_recv ≡ 24
    → proper m.send_key ≡ true
    → proper m.recv_key ≡ true
    → length m.last_chain_hash ≡ 32
    → fresh.send_key ≡ none
    → fresh.recv_key ≡ none
    → load_state c kek fresh (some (persist_state c kek nonce_send nonce_recv m)) ≡ record fresh {
      current_epoch_id = m.current_epoch_id;
      epoch_duration = m.epoch_duration;
      is_initiator = m.is_initiator;
      epoch_start_time = m.epoch_start_time;
      send_key = m.send_key;
      recv_key = m.recv_key;
      nonce_prefix = m.nonce_prefix;
      message_counter = m.message_counter;
      last_chain_hash = m.last_chain_hash;
    }
unfolding load_state persist_state
load-persist c kek nonce_send nonce_recv m fresh auth hs hr ps pr size ns nr =
    rw
      (
        ns,
        nr,
        loaded-stored c auth kek nonce_send m.send_key hs ps,
        loaded-stored c auth kek nonce_recv m.recv_key hr pr,
        value_or-or_none m.nonce_prefix,
        value_or-some m.last_chain_hash (replicate 32 0) size,
      )
      refl

-- A manager with a 16-byte nonce prefix stores its state, seals a frame, and the daemon restarts:
-- a fresh manager that loads the row, under the conditions of load-persist, has the same send
-- key, and the first frame it seals carries the nonce of the frame that was sealed before the
-- restart.
pub restart_repeats_nonce :
    (c : Primitives) (kek : Option Bytes) (nonce_send nonce_recv : Bytes) (m fresh : EpochManager)
    (first second frame frame' : Bytes)
    → IsAuthentic c
    → length nonce_send ≡ 24
    → length nonce_recv ≡ 24
    → proper m.send_key ≡ true
    → proper m.recv_key ≡ true
    → length m.last_chain_hash ≡ 32
    → length m.nonce_prefix ≡ 16
    → fresh.send_key ≡ none
    → fresh.recv_key ≡ none
    → let restarted = load_state c kek fresh (some (persist_state c kek nonce_send nonce_recv m)) in
      (encrypt c m first).0 ≡ ok frame
      → (encrypt c restarted second).0 ≡ ok frame'
      → (restarted.send_key ≡ m.send_key) × (nonce_in frame ≡ nonce_in frame')
restart_repeats_nonce c kek nonce_send nonce_recv m fresh first second frame frame' auth hs hr ps pr
      size prefix ns nr e e' =
    let restarted = load_state c kek fresh (some (persist_state c kek nonce_send nonce_recv m)) in
    let back = load-persist c kek nonce_send nonce_recv m fresh auth hs hr ps pr size ns nr in
    let same : restarted.nonce_prefix ≡ m.nonce_prefix =
      ap (λ (n : EpochManager). n.nonce_prefix) back in
    let counter : restarted.message_counter ≡ m.message_counter =
      ap (λ (n : EpochManager). n.message_counter) back in
    (
      ap (λ (n : EpochManager). n.send_key) back,
      (nonce_in-encrypt c m first frame prefix e).0
          ∙ sym (
              (nonce_in-encrypt c restarted second frame'
                (ap (λ (b : Bytes). length b) same ∙ prefix) e').0
              ∙ ap some (
                  ap (λ b. build_nonce b restarted.message_counter) same
                  ∙ ap (build_nonce m.nonce_prefix) counter)),
    )
