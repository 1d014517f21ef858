-- ===== src/Security/Verification/Tests.antt =====
-- Runs of the tracker and the checks, and their theorems at concrete inputs.
use hokora.Base.{
  ◌+◌, ◌≤◌, ◌≡◌, ◌↔◌, refl, true, false, none, some, [], ◌∷◌, arith, replicate, length, ◌==◌,
  if◌then◌else◌,
}
use hokora.Base.Keys.{bytes_key}
use hokora.Bytes.{Bytes}
use hokora.Dict.{contains, insert, keep}
use hokora.Result.{ok}
use hokora.Security.Verification.{
  NonceTracker, GapWarning, evict_over, check_and_record, evict_expired, verify_sync_nonce,
  verify_node_time, check_sequence_integrity,
}
use hokora.Security.Verification.Replay.{record_all, replay_is_refused, check_and_record-bounded}
use hokora.Security.Verification.Checks.{
  is_young, evict_expired_exact, verify_sync_nonce_iff, verify_node_time_iff,
  check_sequence_integrity_lem,
}

abbrev nonce_bytes : Bytes
nonce_bytes = replicate 16 1

abbrev tracker : NonceTracker
tracker = record { max_size = 2; ttl = 600; seen = (1 ∷ [], 5) ∷ (2 ∷ [], 700) ∷ [] }

-- The oldest entry makes room for the new one.
record_evicts :
    (check_and_record tracker (3 ∷ []) none 800).1.seen ≡ (2 ∷ [], 700) ∷ (3 ∷ [], 800) ∷ []
unfolding check_and_record contains insert evict_over
record_evicts = refl

replay_is_refused_example :
    let t =
      record_all (check_and_record tracker (3 ∷ []) (some 750) 800).1 ((4 ∷ [], none, 900) ∷ []) in
    check_and_record t (3 ∷ []) none 901 ≡ (false, t)
unfolding check_and_record contains
replay_is_refused_example =
    replay_is_refused tracker (3 ∷ []) (some 750) none 800 901 ((4 ∷ [], none, 900) ∷ []) refl
      (omega arith)

check_and_record-bounded_at_input : length (check_and_record tracker (9 ∷ []) none 0).1.seen ≤ 2
check_and_record-bounded_at_input = check_and_record-bounded tracker (9 ∷ []) none 0 (omega arith)

evict_expired_exact_at_input :
    (evict_expired tracker 606).seen
    ≡ (if tracker.ttl == 0 then tracker.seen else keep (is_young tracker.ttl 606) tracker.seen)
evict_expired_exact_at_input = evict_expired_exact tracker 606 (omega arith)

verify_sync_nonce_iff_at_input :
    (verify_sync_nonce nonce_bytes nonce_bytes ≡ ok true)
    ↔ ((nonce_bytes ≡ nonce_bytes) × (length nonce_bytes ≡ 16))
verify_sync_nonce_iff_at_input = verify_sync_nonce_iff nonce_bytes nonce_bytes

node_time_in_range : (verify_node_time 1000 300 1299 ≡ ok true) ↔ ((1000 ≤ 1599) × (1299 ≤ 1300))
node_time_in_range = verify_node_time_iff 1000 300 1299

check_sequence_integrity_lem_at_input :
    ((check_sequence_integrity 3 10).0 ≡ true)
    × ((check_sequence_integrity 3 10).1 ≡ none ↔ 10 ≤ 8)
    × ((w : GapWarning) → (check_sequence_integrity 3 10).1 ≡ some w → 3 + w.gap ≡ 10)
check_sequence_integrity_lem_at_input = check_sequence_integrity_lem 3 10
