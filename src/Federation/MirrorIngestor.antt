-- ===== src/Federation/MirrorIngestor.antt =====
-- src/hokora/federation/mirror_ingestor.py: what becomes of a message that a mirror receives.
pub mod Mirrored
use hokora.Base.{ℕ, ◌+◌, ◌*◌, Bool, true, false, ◌||◌, Option, none, some, ltb, if◌then◌else◌}
use hokora.Result.{Result, ok, err}
use hokora.Db.{Message}
use hokora.Db.Messages.{find_channel, find_message}
use hokora.Core.Processor.Ingest.{is_too_large}
use hokora.Security.Sealed.{SealedChannelError}
use hokora.Security.SealedInvariant.{Stored}
use hokora.Security.Verification.{clock_drift_tolerance}
use hokora.Federation.Auth.{Identities, Rejection, verify_sender_binding}
use hokora.Federation.PushMessages.{PushedMessage, PushState, store_pushed, payload_for}

abbrev pub mirror_max_age_seconds : ℕ
mirror_max_age_seconds = 30 * 86_400

abbrev pub is_short : Identities → Option ℕ → Bool
is_short k none = true
is_short k (some sender) = ltb (k.hash_length sender) 16

abbrev pub is_out_of_range : ℕ → ℕ → Bool
is_out_of_range timestamp now =
    ltb (now + clock_drift_tolerance) timestamp || ltb (timestamp + mirror_max_age_seconds) now

-- `peer_hash or msg_data.get("origin_node")`
abbrev pub origin_of : Option ℕ → Option ℕ → Option ℕ
origin_of none claimed = claimed
origin_of (some peer) claimed = some peer

abbrev pub store_mirrored :
    PushState → PushedMessage → ℕ → ℕ → Option ℕ → Result SealedChannelError Stored → PushState
store_mirrored s m channel now peer (err e) = s
store_mirrored s m channel now peer (ok stored) =
    (store_pushed s m channel now stored (origin_of peer m.origin_node)).1

abbrev pub store_unless_known :
    PushState → PushedMessage → ℕ → ℕ → Option ℕ → Option Message → PushState
store_unless_known s m channel now peer (some row) = s
store_unless_known s m channel now peer none = store_mirrored s m channel now peer (
    payload_for (find_channel channel s.tables.channels) m.body m.encrypted_body m.encryption_nonce
      m.encryption_epoch)

abbrev pub ingest_bound :
    PushState → PushedMessage → ℕ → ℕ → Option ℕ → Option Rejection → PushState
ingest_bound s m channel now peer (some why) = s
ingest_bound s m channel now peer none =
    store_unless_known s m channel now peer (find_message m.msg_hash s.tables.messages)

unfoldable pub ingest_mirrored :
    Identities → Bool → PushState → ℕ → PushedMessage → Option ℕ → ℕ → PushState
ingest_mirrored k require_signed s channel m peer now =
    if is_too_large m.body
    then s
    else if is_short k m.sender_hash
    then s
    else if is_out_of_range m.timestamp now
    then s
    else (let (why, counts) =
          verify_sender_binding k s.binding_rejections m.sender_hash m.sender_rns_public_key
            m.lxmf_signed_part m.lxmf_signature require_signed in
        ingest_bound (record s { binding_rejections = counts }) m channel now peer why)
