-- ===== src/Security/Verification/Checks.antt =====
-- The stateless checks accept exactly what they mean to, and the expiry loop removes exactly the
-- entries that are too old.
use hokora.Base.{
  ℕ, ◌+◌, ◌≤◌, ◌≡◌, refl, ap, ◌↔◌, Bool, true, not, none, some, [], ◌∷◌, arith, ltb, length, ◌==◌,
  if◌then◌else◌,
}
use hokora.Base.Keys.{bytes_key, same_bytes_iff}
use hokora.Bytes.{Bytes}
use hokora.Dict.{Dict, keep}
use hokora.Result.{ok}
use hokora.Security.Verification.{
  NonceTracker, drop_older, evict_expired, verify_sync_nonce, verify_node_time, GapWarning,
  check_sequence_integrity,
}

-- The entries stand in the order in which they were recorded, from the time `lo` on.
abbrev pub IsAscending : ℕ → Dict Bytes ℕ → Type 0
IsAscending lo [] = Unit
IsAscending lo ((nonce, ts) ∷ seen) = (lo ≤ ts) × IsAscending ts seen

abbrev pub is_young : ℕ → ℕ → ℕ → Bool
is_young ttl now ts = not (ltb (ts + ttl) now)

keep_all :
    (ttl now lo : ℕ) (l : Dict Bytes ℕ)
    → IsAscending lo l
    → now ≤ lo + ttl
    → keep (is_young ttl now) l ≡ l
unfolding keep
keep_all ttl now lo [] h y = refl
keep_all ttl now lo ((nonce, ts) ∷ l) h y =
    ground (arith, keep_all ttl now ts l h.1 (omega (arith, h.0)))

drop_older-keep :
    (ttl now lo : ℕ) (l : Dict Bytes ℕ)
    → IsAscending lo l
    → drop_older ttl now l ≡ keep (is_young ttl now) l
unfolding drop_older keep
drop_older-keep ttl now lo [] h = refl
drop_older-keep ttl now lo ((nonce, ts) ∷ l) h =
    ground (arith, drop_older-keep ttl now ts l h.1, keep_all ttl now ts l h.1)

-- Where the clock never ran backwards, `evict_expired` keeps exactly the entries that are at most
-- `ttl` old, in their order; with a `ttl` of zero it keeps all.
pub evict_expired_exact :
    (t : NonceTracker) (now : ℕ)
    → IsAscending 0 t.seen
    → (evict_expired t now).seen ≡ (if t.ttl == 0 then t.seen else keep (is_young t.ttl now) t.seen)
unfolding evict_expired
evict_expired_exact t now h = ground (arith, drop_older-keep t.ttl now 0 t.seen h)

-- A response nonce is accepted exactly if it is the request's and has 16 bytes.
pub verify_sync_nonce_iff :
    (sent received : Bytes)
    → (verify_sync_nonce sent received ≡ ok true) ↔ ((sent ≡ received) × (length sent ≡ 16))
unfolding verify_sync_nonce
verify_sync_nonce_iff sent received =
    let b = same_bytes_iff sent received in
    (λ h. ground arith, λ (e, l). ground (arith, b, ap (λ (s : Bytes). length s) e))

-- A node's clock is accepted exactly if it is within the tolerance on either side.
pub verify_node_time_iff :
    (node_time tolerance local_time : ℕ)
    → (verify_node_time node_time tolerance local_time ≡ ok true)
      ↔ ((node_time ≤ local_time + tolerance) × (local_time ≤ node_time + tolerance))
unfolding verify_node_time
verify_node_time_iff node_time tolerance local_time = (λ h. ground arith, λ h. ground arith)

-- A received sequence number is always let through; it is warned about exactly if more than five
-- past the expected one, and the warning names the true gap.
pub check_sequence_integrity_lem :
    (expected received : ℕ)
    → ((check_sequence_integrity expected received).0 ≡ true)
      × ((check_sequence_integrity expected received).1 ≡ none ↔ received ≤ expected + 5)
      × ((w : GapWarning)
          → (check_sequence_integrity expected received).1 ≡ some w
          → expected + w.gap ≡ received)
unfolding check_sequence_integrity
check_sequence_integrity_lem expected received =
    (ground arith, (λ h. ground arith, λ h. ground arith), λ w h. ground arith)
