-- ===== src/Security/Sealed/Tests.antt =====
-- Group keys with a toy cipher: the key is put before the text, and opening takes it off.
use hokora.Base.{ℕ, ◌≡◌, refl, Option, some, List, [], ◌∷◌, ◌++◌, arith, length, drop}
use hokora.Base.Keys.{number_key}
use hokora.Bytes.{Bytes}
use hokora.Dict.{lookup, insert}
use hokora.Result.{ok, err}
use hokora.Security.Sealed.{
  Gcm, epoch_unavailable, no_keys, get_epoch, generate_key, encrypt, find_epoch, decrypt, trimmed,
  rotate_key,
}
use hokora.Security.Sealed.Loading.{SealedKey, NodeIdentity, persist_key, load_keys}
use hokora.Samples.{vault}
use hokora.Security.Sealed.Rotations.{rotate_all, rotations_of, decrypt-encrypt}

-- The text behind the key, whatever the nonce.
abbrev put_key : Bytes → Bytes → Bytes → Bytes → Bytes
put_key key nonce text aad = key ++ text

abbrev take_key : Bytes → Bytes → Bytes → Bytes → Option Bytes
take_key key nonce cipher aad = some (drop (length key) cipher)

abbrev toy : Gcm
toy = record { gcm_encrypt = put_key; gcm_decrypt = take_key; encode_id = λ id. id ∷ [] }

drop-append_all : (xs ys : Bytes) → drop (length xs) (xs ++ ys) ≡ ys
drop-append_all [] ys = refl
drop-append_all (x ∷ xs) ys = drop-append_all xs ys

toy_opens : (k n p a : Bytes) → take_key k n (put_key k n p a) a ≡ some p
toy_opens k n p a = rw (drop-append_all k p) refl

abbrev earlier : List (ℕ × Bytes)
earlier = (7, 1 ∷ []) ∷ (8, 2 ∷ []) ∷ (7, 3 ∷ []) ∷ []

abbrev later : List (ℕ × Bytes)
later = (7, 4 ∷ []) ∷ (8, 5 ∷ []) ∷ (7, 6 ∷ []) ∷ []

sealed_in_epoch_two :
    encrypt toy (rotate_all no_keys earlier) 7 (9 ∷ []) (104 ∷ 105 ∷ [])
    ≡ ok (9 ∷ [], 3 ∷ 104 ∷ 105 ∷ [], 2)
unfolding encrypt rotate_all rotate_key generate_key lookup insert
sealed_in_epoch_two = refl

decrypt-encrypt_example :
    decrypt toy
      (rotate_all (rotate_all no_keys earlier) later)
      7
      (9 ∷ [])
      (3 ∷ 104 ∷ 105 ∷ [])
      (some 2)
    ≡ ok (104 ∷ 105 ∷ [])
decrypt-encrypt_example =
    decrypt-encrypt toy earlier later 7 (9 ∷ []) (104 ∷ 105 ∷ []) (9 ∷ []) (3 ∷ 104 ∷ 105 ∷ []) 2
      toy_opens sealed_in_epoch_two (unfold rotations_of in omega arith)

-- Six rotations later the key is gone.
abbrev six_more : List (ℕ × Bytes)
six_more =
    (7, 11 ∷ []) ∷ (7, 12 ∷ []) ∷ (7, 13 ∷ []) ∷ (7, 14 ∷ []) ∷ (7, 15 ∷ []) ∷ (7, 16 ∷ []) ∷ []

gone_after_six :
    decrypt toy
      (rotate_all (rotate_all no_keys earlier) six_more)
      7
      (9 ∷ [])
      (3 ∷ 104 ∷ 105 ∷ [])
      (some 2)
    ≡ err epoch_unavailable
unfolding decrypt rotate_all rotate_key generate_key lookup insert trimmed find_epoch
gone_after_six = refl

-- A node whose keys are stored as they are.
abbrev node : NodeIdentity
node = record { hexhash = 1; encrypt_key = λ k. k; decrypt_key = λ b. some b }

abbrev stored_rows : List SealedKey
stored_rows =
    (persist_key node (rotate_all no_keys earlier) 7
      (persist_key node (rotate_all no_keys ((7, 1 ∷ []) ∷ [])) 7 []).1).1

loaded_again : get_epoch (load_keys node stored_rows (vault ∷ []) no_keys) 7 ≡ 2
unfolding get_epoch load_keys persist_key rotate_all rotate_key generate_key lookup insert
loaded_again = refl
