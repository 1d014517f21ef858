-- ===== src/Federation/Tests.antt =====
-- Pushes of a peer into the sample tables, and what comes of their acknowledgements.
use hokora.Base.{◌≡◌, ◌≢◌, refl, true, none, some, List, [], ◌∷◌, ◌++◌, replicate, arith}
use hokora.Bytes.{Bytes}
use hokora.Db.{Tables}
use hokora.Text.{Text, utf8}
use hokora.Result.{ok}
use hokora.Db.Messages.{find_channel, find_message, raise_seq}
use hokora.Core.Sequencer.{next_seq}
use hokora.Core.Processor.Sequences.{timeline, latest}
use hokora.Samples.{vault, greeting, sample}
use hokora.Security.Ban.{is_blocked}
use hokora.Security.SealedInvariant.{validate_mirror_payload}
use hokora.Security.Verification.{verify_ed25519_signature}
use hokora.Federation.Auth.{Identities, verify_sender_binding}
use hokora.Federation.PushMessages.{
  PushedMessage, Peer, PushState, store_pushed, verdict, is_trusted, receive_all,
  handle_push_messages,
}
use hokora.Federation.PushMessages.Vouched.{AddsVouched, handle_push_messages-Vouched}
use hokora.Federation.Arrivals.{none_yet, then, pushed, mirrored, IsSound, Arrivals-IsSound}
use hokora.Federation.MirrorIngestor.{ingest_mirrored}
use hokora.Federation.Pusher.{
  FederationPusher, Network, sent, rows_after, insert_by_seq, by_seq, get_history, greatest_seq,
  to_push, encode_all, push_pending, greatest, handle_push_ack,
}
use hokora.Federation.Pusher.Later.{AllSentAbove, waits, pushes, acknowledged_skips}
use hokora.Federation.EpochCrypto.{Primitives}
use hokora.Federation.Pusher.SealedRows.{handle_push_messages-encode_all}

-- Every key hashes to identity 14, and every signature verifies.
abbrev ids : Identities
ids = record {
  truncated_hash = λ key. 14;
  hash_length = λ sender. 32;
  verify = λ key signed_part signature. true;
}

abbrev from_peer : PushedMessage
from_peer = record {
  msg_hash = 700;
  sender_hash = some 14;
  seq = 41;
  timestamp = 60;
  type = 1;
  body = some (111 ∷ 107 ∷ []);
  display_name = none;
  encrypted_body = none;
  encryption_nonce = none;
  encryption_epoch = none;
  lxmf_signed_part = some (1 ∷ []);
  lxmf_signature = some (2 ∷ []);
  sender_rns_public_key = some (replicate 64 0);
  origin_node = some 20;
}

abbrev peers : List Peer
peers = record { identity_hash = 20; federation_trusted = true } ∷ []

abbrev before : PushState
before = record {
  tables = sample;
  sequencer = record { cache = []; thread_cache = [] };
  binding_rejections = [];
  ban_rejections = [];
  published = [];
}

-- The peer pushed the message as number 41; here it is the second of the lobby.
pushed_lobby :
    let (r, s') =
      handle_push_messages ids true peers (some 5) (from_peer ∷ []) (some 20) 70 before in
    (r ≡ ok (record { received = 2 ∷ []; rejected = [] }))
    × (timeline 5 s'.tables.messages ≡ 1 ∷ 2 ∷ [])
unfolding handle_push_messages receive_all is_trusted verdict find_message is_blocked
    verify_sender_binding verify_ed25519_signature validate_mirror_payload store_pushed next_seq
    find_channel raise_seq timeline utf8 hokora.Text.utf8_char
pushed_lobby = (refl, refl)

handle_push_messages-Vouched_example :
    AddsVouched ids 5 20 sample
      (handle_push_messages ids true peers (some 5) (from_peer ∷ []) (some 20) 70 before).1.tables
handle_push_messages-Vouched_example =
    handle_push_messages-Vouched ids peers 5 (from_peer ∷ []) 20 70 before

sample-IsSound : IsSound sample
unfolding timeline latest find_channel
sample-IsSound = (λ channel. ground arith, (λ ch f s. cc, tt))

abbrev after_push : PushState
after_push = (handle_push_messages ids true peers (some 5) (from_peer ∷ []) (some 20) 70 before).1

abbrev another : PushedMessage
another = record from_peer { msg_hash = 701 }

Arrivals-IsSound_example :
    IsSound (ingest_mirrored ids true after_push 5 another (some 20) 80).tables
Arrivals-IsSound_example =
    Arrivals-IsSound
      (then (then none_yet (pushed ids true peers 5 (from_peer ∷ []) 20 70 before))
        (mirrored ids true after_push 5 another (some 20) 80))
      sample-IsSound

-- The pusher of the lobby on node 20, which has been acknowledged nothing yet.
abbrev pusher : FederationPusher
pusher = record {
  peer_identity_hash = 1;
  channel_id = 5;
  node_identity_hash = 20;
  link = some 3;
  has_sessions = true;
  push_cursor = 0;
  epoch_manager = none;
  has_callback = true;
  consecutive_failures = 0;
  last_attempt = 0;
  max_backoff = 600_000;
}

pushed_once :
    handle_push_messages ids true peers (some 5) (from_peer ∷ []) (some 20) 70 before
    ≡ (ok (record { received = 2 ∷ []; rejected = [] }), after_push)
unfolding handle_push_messages receive_all is_trusted verdict find_message is_blocked
    verify_sender_binding verify_ed25519_signature validate_mirror_payload store_pushed next_seq
    find_channel raise_seq utf8 hokora.Text.utf8_char
pushed_once = refl

raised_number : latest 5 after_push.tables.channels ≢ latest 5 sample.channels
unfolding handle_push_messages receive_all is_trusted verdict find_message is_blocked
    verify_sender_binding verify_ed25519_signature validate_mirror_payload store_pushed next_seq
    find_channel raise_seq utf8 hokora.Text.utf8_char latest
raised_number = ground arith

-- Requests are the numbers of their messages.
abbrev numbers : List PushedMessage → Bytes
numbers [] = []
numbers (m ∷ messages) = m.seq ∷ numbers messages

abbrev network : Network
network = record {
  recall = λ who. some (replicate 64 0);
  signed = λ hash. (some (1 ∷ []), some (2 ∷ []));
  pack = λ channel node messages. some (numbers messages);
}

abbrev no_crypto : Primitives
no_crypto = record {
  public_key = λ private. private;
  exchange = λ private public. none;
  hkdf = λ secret info. secret;
  hmac = λ key text. text;
  aead_encrypt = λ key nonce text aad. text;
  aead_decrypt = λ key nonce text aad. some text;
}

-- Node 20 has three messages; the peer has acknowledged one that it stored as its second.
abbrev own_tables : Tables
own_tables = record sample {
  messages =
      greeting
      ∷ record greeting { msg_hash = 901; seq = some 2 }
      ∷ record greeting { msg_hash = 902; seq = some 3 }
      ∷ [];
}

abbrev acknowledged : FederationPusher
acknowledged = (handle_push_ack pusher (2 ∷ [])).1

-- Of the three only the third is sent.
third_sent : (push_pending no_crypto network own_tables acknowledged 80).0 ≡ sent 3 (3 ∷ []) ∷ []
unfolding push_pending handle_push_ack greatest get_history rows_after by_seq insert_by_seq
    greatest_seq to_push encode_all is_blocked
third_sent = refl

acknowledged_skips_example :
    AllSentAbove no_crypto network
      (latest 5 after_push.tables.channels)
      ([] ++ (push_pending no_crypto network own_tables acknowledged 80).0)
acknowledged_skips_example =
    acknowledged_skips ids true peers 5 20 70 (from_peer ∷ []) before after_push
      (record { received = 2 ∷ []; rejected = [] }) no_crypto network pusher
      (push_pending no_crypto network own_tables acknowledged 80).1
      ([] ++ (push_pending no_crypto network own_tables acknowledged 80).0) pushed_once
      raised_number (pushes own_tables 80 waits)

handle_push_messages-encode_all_example :
    (handle_push_messages ids true peers
      (some 7)
      (encode_all
        (λ who. some (replicate 64 0))
        (λ hash. (some (1 ∷ []), some (2 ∷ [])))
        20
        ((1, record greeting { channel_id = 7; encrypted_body = some (9 ∷ []); body = none }) ∷ []))
      (some 20)
      70
      before).1.tables
    ≡ sample
handle_push_messages-encode_all_example =
    handle_push_messages-encode_all (λ who. some (replicate 64 0))
      (λ hash. (some (1 ∷ []), some (2 ∷ [])))
      ((1, record greeting { channel_id = 7; encrypted_body = some (9 ∷ []); body = none }) ∷ [])
      ids true peers 7 20 70 before vault (unfold find_channel in refl) refl
