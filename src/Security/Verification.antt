-- ===== src/Security/Verification.antt =====
-- src/hokora/security/verification.py: nonces, signatures, clock drift and sequence gaps. Times are
-- numbers of clock ticks; `now` is what `time.time()` returns in the call. Log lines are left out.
pub mod Replay
pub mod Checks
mod Tests
use hokora.Base.{
  ℕ, ◌+◌, ◌-◌, ◌*◌, ◌<◌, Bool, true, false, ◌&&◌, Option, none, some, List, [], ◌∷◌, ltb, leb, ◌==◌,
  not, length, if◌then◌else◌,
}
use hokora.Base.Keys.{Key, ◌≟◌, bytes_key}
use hokora.Bytes.{Bytes}
use hokora.Dict.{Dict, contains, insert}
use hokora.Result.{Result, ok, err, ◌>>=◌, ◌>>◌, raise_if}

abbrev pub nonce_size : ℕ
nonce_size = 16

abbrev pub clock_drift_tolerance : ℕ
clock_drift_tolerance = 300

abbrev pub seq_gap_warning : ℕ
seq_gap_warning = 5

-- The messages that `VerificationError` carries.
pub data VerificationError : Type 0 where
  replay bad_sent_nonce bad_received_nonce nonce_mismatch clock_drift : VerificationError
  not_validated no_status : VerificationError

pub record NonceTracker : Type 0 where
  pub max_size : ℕ
  pub ttl : ℕ
  pub seen : Dict Bytes ℕ

-- `while len(self._seen) > self.max_size: self._seen.popitem(last=False)`
unfoldable pub evict_over : ℕ → Dict Bytes ℕ → Dict Bytes ℕ
evict_over max_size [] = []
evict_over max_size (x ∷ seen) =
    let rest = evict_over max_size seen in
    if ltb max_size (length (x ∷ seen)) then rest else x ∷ seen

-- `age > self.ttl`, for a request that carries a timestamp.
unfoldable pub is_expired : ℕ → ℕ → Option ℕ → Bool
is_expired ttl now none = false
is_expired ttl now (some timestamp) = ltb 0 ttl && ltb (timestamp + ttl) now

unfoldable pub check_and_record : NonceTracker → Bytes → Option ℕ → ℕ → Bool × NonceTracker
unfolding is_expired
check_and_record t nonce timestamp now =
    if contains nonce t.seen
    then (false, t)
    else if is_expired t.ttl now timestamp
    then (false, t)
    else (true, record t { seen = evict_over t.max_size (insert nonce now t.seen) })

-- The loop of `evict_expired`: it stops at the first entry that is young enough.
unfoldable pub drop_older : ℕ → ℕ → Dict Bytes ℕ → Dict Bytes ℕ
drop_older ttl now [] = []
drop_older ttl now ((nonce, ts) ∷ seen) =
    let rest = drop_older ttl now seen in if ltb (ts + ttl) now then rest else (nonce, ts) ∷ seen

unfoldable pub evict_expired : NonceTracker → ℕ → NonceTracker
evict_expired t now = if t.ttl == 0 then t else record t { seen = drop_older t.ttl now t.seen }

unfoldable pub clear : NonceTracker → NonceTracker
clear t = record t { seen = [] }

unfoldable pub check_nonce_replay :
    NonceTracker → Bytes → ℕ → Result VerificationError Bool × NonceTracker
check_nonce_replay t nonce now =
    let (fresh, t') = check_and_record t nonce none now in
    (if fresh then ok true else err replay, t')

-- `Ed25519PublicKey.from_public_bytes(key).verify(signature, message)` is not part of the program:
-- `verify` says whether it returns without an exception.
unfoldable pub verify_ed25519_signature :
    (Bytes → Bytes → Bytes → Bool) → Option Bytes → Bytes → Bytes → Bool
verify_ed25519_signature verify none message signature = false
verify_ed25519_signature verify (some public_key_bytes) message signature =
    if not (length public_key_bytes == 32) then false else verify public_key_bytes message signature

unfoldable pub verify_sync_nonce : Bytes → Bytes → Result VerificationError Bool
verify_sync_nonce sent received = do
  raise_if (not (length sent == nonce_size)) bad_sent_nonce
  raise_if (not (length received == nonce_size)) bad_received_nonce
  raise_if (not (sent ≟ received)) nonce_mismatch
  ok true

unfoldable pub verify_node_time : ℕ → ℕ → ℕ → Result VerificationError Bool
verify_node_time node_time tolerance local_time = do
  raise_if (ltb tolerance ((local_time - node_time) + (node_time - local_time))) clock_drift
  ok true

-- The warning names the sequence number that was due, the one that came, and the gap.
pub record GapWarning : Type 0 where
  pub due : ℕ
  pub got : ℕ
  pub gap : ℕ

unfoldable pub check_sequence_integrity : ℕ → ℕ → Bool × Option GapWarning
check_sequence_integrity expected_seq received_seq =
    if leb received_seq expected_seq
    then (true, none)
    else (let gap = received_seq - expected_seq in
        if gap == 1
        then (true, none)
        else if leb gap seq_gap_warning
        then (true, none)
        else (true, some (record { due = expected_seq + 1; got = received_seq; gap = gap })))

-- `signature_validated` of the message, where it has that attribute.
unfoldable pub verify_lxmf_signature : Option Bool → Result VerificationError Bool
verify_lxmf_signature none = err no_status
verify_lxmf_signature (some validated) = if not validated then err not_validated else ok true
