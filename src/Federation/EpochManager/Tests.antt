-- ===== src/Federation/EpochManager/Tests.antt =====
-- Runs of the epoch manager over a toy cipher suite, in which the properties' hypotheses hold.
use hokora.Base.{
  ℕ, ◌+◌, ◌*◌, ◌≡◌, ◌≢◌, ◌⊎◌, refl, Bool, true, false, Option, none, some, [], ◌∷◌, ◌++◌, arith,
  replicate, ◌==◌, if◌then◌else◌,
}
use hokora.Bytes.{Bytes, pack_be, slice, unpack_from}
use hokora.Result.{ok, err}
use hokora.Federation.EpochWire.{
  encode_epoch_data, encode_epoch_rotate, encode_epoch_rotate_ack, decode_epoch_rotate,
  rotate_fields,
}
use hokora.Federation.EpochCrypto.{
  Primitives, build_nonce, derive_epoch_keys, compute_chain_hash, wrap_key, unwrap_key,
}
use hokora.Federation.EpochManager.{
  EpochManager, regression, create_epoch_rotate, rotate_frame, rotate_signed, handle_epoch_rotate,
  check_rotate, accept_rotate, activate_epoch, ack_frame, teardown, is_active,
}
use hokora.Federation.EpochManager.Sealing.{encrypt, seal_frame}
use hokora.Federation.EpochManager.Messages.{nonces_differ, quiet, nonce_in}
use hokora.Federation.EpochManager.Delivery.{IsAuthentic, Paired, deliver_all, deliver_all_lem}
use hokora.Federation.EpochManager.Handshake.{HasProtocolSizes, Peers, rotate}
use hokora.Federation.EpochManager.Agreement.{rotate_agrees}
use hokora.Federation.EpochManager.Progress.{
  Advanced, handle_epoch_rotate_cases, idle, sealed, rotation_replay_refused,
}
use hokora.Federation.EpochManager.Restart.{
  persist_state, load_state, stored_key, loaded_key, load-persist, restart_repeats_nonce,
}

abbrev sum : Bytes → ℕ
sum [] = 0
sum (b ∷ bs) = b + sum bs

abbrev untag : ℕ → Bytes → Option Bytes
untag tag [] = none
untag tag (b ∷ bs) = if b == tag then some bs else none

-- A tag in front of the text stands for the seal.
abbrev toy : Primitives
toy = record {
  public_key = λ private. sum private ∷ replicate 31 0;
  exchange = λ private public. some (sum private * sum public ∷ []);
  hkdf = λ secret info. replicate 32 (sum secret + sum info);
  hmac = λ key text. replicate 32 (sum key);
  aead_encrypt = λ key nonce text aad. sum key ∷ text;
  aead_decrypt = λ key nonce text aad. untag (sum key) text;
}

toy-IsAuthentic : IsAuthentic toy
toy-IsAuthentic = record { opens = λ key nonce text aad. ground arith }

toy-HasProtocolSizes : HasProtocolSizes toy
toy-HasProtocolSizes = record {
  public_size = λ _. refl;
  hmac_size = λ _ _. refl;
  hkdf_size = λ _ _. refl;
}

abbrev accepts : Bytes → Bytes → Bool
accepts [] text = false
accepts (b ∷ bs) text = b == 7

abbrev fresh : Bool → EpochManager
fresh initiator = record {
  is_initiator = initiator;
  sign = λ text. replicate 64 7;
  peer_validate = some accepts;
  epoch_duration = 3600;
  current_epoch_id = 0;
  send_key = none;
  recv_key = none;
  prev_recv_key = none;
  prev_epoch_id = 0;
  nonce_prefix = [];
  message_counter = 0;
  last_chain_hash = replicate 32 0;
  epoch_start_time = 0;
  pending_private_key = none;
  pending_public_key = [];
  torn_down = false;
}

abbrev two_peers : Peers toy (fresh true) (fresh false) (3 ∷ []) (5 ∷ [])
two_peers = record {
  validate_i = accepts;
  validate_r = accepts;
  r_knows = refl;
  i_knows = refl;
  i_signs = λ _. refl;
  r_signs = λ _. refl;
  i_size = λ _. refl;
  r_size = λ _. refl;
  chain_size = refl;
  chain = refl;
  newer = omega arith;
  fits = omega arith;
  duration_fits = omega arith;
  secret = 15 ∷ [];
  exchange_i = refl;
  exchange_r = refl;
}

abbrev prefix_i : Bytes
prefix_i = replicate 16 1

abbrev prefix_r : Bytes
prefix_r = replicate 16 2

rotate_agrees_example :
    let (done, i', r') =
      rotate toy (fresh true) (fresh false) (3 ∷ []) (5 ∷ []) prefix_i prefix_r 10 11 in
    (done ≡ ok tt)
    × (i'.current_epoch_id ≡ 1)
    × Paired i' r'
    × Paired r' i'
    × (r'.last_chain_hash ≡ i'.last_chain_hash)
rotate_agrees_example =
    rotate_agrees toy (fresh true) (fresh false) (3 ∷ []) (5 ∷ []) prefix_i prefix_r 10 11
      toy-HasProtocolSizes two_peers refl refl

-- A manager in epoch 4, and one that receives from it.
abbrev sender : EpochManager
sender = record (fresh true) {
  current_epoch_id = 4;
  send_key = some (replicate 32 9);
  recv_key = some (replicate 32 8);
  nonce_prefix = prefix_i;
  message_counter = 2;
}

abbrev receiver : EpochManager
receiver = record (fresh false) {
  current_epoch_id = 4;
  send_key = some (replicate 32 8);
  recv_key = some (replicate 32 9);
  nonce_prefix = prefix_r;
}

abbrev sender_Paired : Paired sender receiver
sender_Paired = record {
  key_head = 9;
  key_tail = replicate 31 9;
  sends = refl;
  receives = refl;
  same_epoch = refl;
  epoch_fits = omega arith;
  prefix_size = refl;
}

deliver_all_example :
    deliver_all toy sender receiver ((1 ∷ []) ∷ (2 ∷ 3 ∷ []) ∷ [])
    ≡ ok (1 ∷ []) ∷ ok (2 ∷ 3 ∷ []) ∷ []
deliver_all_example =
    deliver_all_lem toy sender receiver ((1 ∷ []) ∷ (2 ∷ 3 ∷ []) ∷ []) toy-IsAuthentic sender_Paired
      (omega arith)

-- The frame of `sender` for a text at a counter.
abbrev frame_at : ℕ → Bytes → Bytes
frame_at n text = 34 ∷ (pack_be 8 4 ++ ((prefix_i ++ pack_be 8 n) ++ (288 ∷ text)))

first_frame : (encrypt toy sender (1 ∷ [])).0 ≡ ok (frame_at 2 (1 ∷ []))
unfolding encrypt seal_frame build_nonce encode_epoch_data
first_frame = refl

abbrev sender_after : EpochManager
sender_after = record sender { message_counter = 3 }

after_first : (encrypt toy sender (1 ∷ [])).1 ≡ sender_after
unfolding encrypt
after_first = refl

second_frame : (encrypt toy (encrypt toy sender (1 ∷ [])).1 (5 ∷ [])).0 ≡ ok (frame_at 3 (5 ∷ []))
unfolding encrypt seal_frame build_nonce encode_epoch_data
second_frame = refl

nonces_differ_example : nonce_in (frame_at 2 (1 ∷ [])) ≢ nonce_in (frame_at 3 (5 ∷ []))
nonces_differ_example =
    nonces_differ toy sender (encrypt toy sender (1 ∷ [])).1 (1 ∷ []) (5 ∷ []) (frame_at 2 (1 ∷ []))
      (frame_at 3 (5 ∷ [])) refl first_frame quiet second_frame

-- The first rotation frame, signed by the initiator.
abbrev asking : Bytes
asking =
    32
    ∷ (pack_be 8 1
        ++ (pack_be 4 3600 ++ ((3 ∷ replicate 31 0) ++ (replicate 32 0 ++ replicate 64 7))))

abbrev reply : Bytes
reply = 33 ∷ (pack_be 8 1 ++ ((5 ∷ replicate 31 0) ++ (replicate 32 25984 ++ replicate 64 7)))

asked : (create_epoch_rotate toy (fresh true) (3 ∷ [])).0 ≡ ok asking
unfolding create_epoch_rotate rotate_frame encode_epoch_rotate
asked = refl

replied : (handle_epoch_rotate toy (fresh false) asking (5 ∷ []) prefix_r 11).0 ≡ ok reply
unfolding handle_epoch_rotate accept_rotate check_rotate decode_epoch_rotate rotate_fields
    rotate_signed derive_epoch_keys activate_epoch ack_frame encode_epoch_rotate_ack
    compute_chain_hash slice unpack_from pack_be
replied = refl

abbrev served : EpochManager
served = (handle_epoch_rotate toy (fresh false) asking (5 ∷ []) prefix_r 11).1

handle_epoch_rotate_cases_example :
    (served ≡ fresh false) ⊎ Advanced (fresh false) served asking prefix_r
handle_epoch_rotate_cases_example =
    handle_epoch_rotate_cases toy (fresh false) asking (5 ∷ []) prefix_r 11

rotation_replay_refused_example :
    handle_epoch_rotate toy (encrypt toy served (9 ∷ [])).1 asking (6 ∷ []) prefix_i 12
    ≡ (err regression, (encrypt toy served (9 ∷ [])).1)
rotation_replay_refused_example =
    rotation_replay_refused toy (fresh false) (encrypt toy served (9 ∷ [])).1 asking (5 ∷ [])
      (6 ∷ []) prefix_r prefix_i 11 12 reply refl replied (sealed (9 ∷ []) idle)

abbrev kek : Option Bytes
kek = some (4 ∷ 4 ∷ [])

abbrev wrap_nonce : Bytes
wrap_nonce = replicate 24 6

abbrev restarted : EpochManager
restarted =
    load_state toy kek (fresh false) (some (persist_state toy kek wrap_nonce wrap_nonce sender))

load-persist_example : restarted ≡ record (fresh false) {
  current_epoch_id = 4;
  epoch_duration = 3600;
  is_initiator = true;
  epoch_start_time = 0;
  send_key = some (replicate 32 9);
  recv_key = some (replicate 32 8);
  nonce_prefix = prefix_i;
  message_counter = 2;
  last_chain_hash = replicate 32 0;
}
load-persist_example =
    load-persist toy kek wrap_nonce wrap_nonce sender (fresh false) toy-IsAuthentic refl refl refl
      refl refl refl refl

restarted_frame : (encrypt toy restarted (8 ∷ [])).0 ≡ ok (frame_at 2 (8 ∷ []))
unfolding encrypt seal_frame build_nonce encode_epoch_data load_state persist_state stored_key
    loaded_key wrap_key unwrap_key
restarted_frame = refl

restart_repeats_nonce_example :
    (restarted.send_key ≡ some (replicate 32 9))
    × (nonce_in (frame_at 2 (1 ∷ [])) ≡ nonce_in (frame_at 2 (8 ∷ [])))
restart_repeats_nonce_example =
    restart_repeats_nonce toy kek wrap_nonce wrap_nonce sender (fresh false) (1 ∷ []) (8 ∷ [])
      (frame_at 2 (1 ∷ [])) (frame_at 2 (8 ∷ [])) toy-IsAuthentic refl refl refl refl refl refl refl
      refl first_frame restarted_frame

-- After teardown nothing can be sealed.
torn_down_inactive : is_active (teardown sender) ≡ false
unfolding is_active teardown
torn_down_inactive = refl
