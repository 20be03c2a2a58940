-- ===== src/Tests/Hashes.antt =====
-- Examples for the stored hashes and the encrypted secrets: primitives with concrete answers.
use sulis.Base.{
  ℕ, zero, suc, ◌≡◌, ◌<◌, inl, inr, refl, ap, subst, Bool, true, false, [], ◌∷◌, ◌++◌, arith,
  length, ◌==◌, ◌||◌, if◌then◌else◌,
}
use sulis.Base.Lists.{take}
use sulis.Base.Text
use sulis.Base.Text.{Text, codes}
use sulis.Base.Base64.RoundTrip.{IsBytes}
use sulis.Error.{Result, ok, err}
use sulis.Exec.{pure}
use sulis.Password.{Argon2Params, Primitives}
use sulis.Password.Stored.{encode_hash, decode_hash}
use sulis.Password.Stored.RoundTrip.{InBounds, decode_hash-encode_hash, decode_hash-InBounds}
use sulis.Password.Hashing.{hash_password, verify_password}
use sulis.Password.Hashing.Verdicts
use sulis.Password.Hashing.Verdicts.{
  verify_password-hash_password, needs_rehash-hash_password_iff, verify_password-ok_true,
}
use sulis.Totp.Encryption.{
  Aead, Ciphers, AesEncryptor, new_aes_encryptor, encrypt, decrypt, key_fingerprint, cipher_of,
  add_keys,
}
use sulis.Base.Dict.{put}
use sulis.Base.Base64.{encode}
use sulis.Totp.Encryption.RoundTrip
use sulis.Totp.Encryption.RoundTrip.{decrypt-encrypt, IsHeld}

abbrev pub zeros : ℕ → Text
zeros zero = []
zeros (suc n) = 0 ∷ zeros n

length-zeros : (n : ℕ) → length (zeros n) ≡ n
length-zeros zero = refl
length-zeros (suc n) = omega (arith, length-zeros n)

zeros-IsBytes : (n : ℕ) → IsBytes (zeros n)
zeros-IsBytes zero = tt
zeros-IsBytes (suc n) = (omega arith, zeros-IsBytes n)

abbrev params : Argon2Params
params = record { memory = 64; iterations = 3; parallelism = 2; salt_length = 8; key_length = 16 }

params-InBounds : InBounds params
params-InBounds = record {
  some_thread = omega arith;
  few_threads = omega arith;
  some_round = omega arith;
  few_rounds = omega arith;
  memory_least = omega arith;
  memory_most = omega arith;
  salt_least = omega arith;
  salt_most = omega arith;
  key_least = omega arith;
  key_most = omega arith;
}

abbrev pub prims : Primitives Unit
prims = record {
  nfkc = λ password. password;
  hmac_sha256 = λ key message. key ++ message;
  id_key = λ password salt iterations memory parallelism n. zeros n;
  id_key_panics = λ iterations memory parallelism n. iterations == 0 || parallelism == 0;
  random_bytes = λ n. pure (zeros n);
}

pub prims-Documented : Verdicts.Documented prims
prims-Documented = record {
  random_length = λ n w v salt h. ground (arith, zeros-IsBytes n, length-zeros n);
  key_length = λ password salt iterations memory parallelism n. (zeros-IsBytes n, length-zeros n);
}

abbrev hashed : Text
hashed = encode_hash params (zeros 8) (zeros 16)

decoded : decode_hash hashed ≡ ok (params, zeros 8, zeros 16)
decoded =
    decode_hash-encode_hash params (zeros 8) (zeros 16) params-InBounds (zeros-IsBytes 8)
      (zeros-IsBytes 16) refl refl

decode_hash-InBounds_example : InBounds params
decode_hash-InBounds_example = (decode_hash-InBounds hashed params (zeros 8) (zeros 16) decoded).0

hashed_once : hash_password prims (codes "pw") params [] tt ≡ (ok hashed, tt)
unfolding hash_password
hashed_once = refl

verified : verify_password prims (codes "pw") hashed [] ≡ ok (true, false)
verified =
    (verify_password-hash_password prims prims-Documented (codes "pw") (codes "pw") [] hashed params
      tt tt params-InBounds refl hashed_once).0

verify_password-ok_true_example :
    InBounds (verify_password-ok_true prims (codes "pw") hashed [] false verified).0
verify_password-ok_true_example =
    (verify_password-ok_true prims (codes "pw") hashed [] false verified).4

abbrev starts_with_one : Text → Bool
starts_with_one [] = false
starts_with_one (c ∷ s) = c == 1

-- a cipher that leaves the plaintext as it is, and keys whose fingerprint tells whether they begin with 1
abbrev open_cipher : Aead
open_cipher = record {
  nonce_size = 12;
  seal = λ nonce plaintext. plaintext;
  open_sealed = λ nonce sealed. ok sealed;
}

abbrev ciphers : Ciphers Unit
ciphers = record {
  new_gcm = λ key. ok open_cipher;
  hmac_sha256 = λ key message. (if starts_with_one key then 1 else 2) ∷ zeros 31;
  random_bytes = λ n. pure (zeros n);
}

abbrev cipher_in : Result Aead → Aead
cipher_in (ok gcm) = gcm
cipher_in (err e) = open_cipher

id-small : (b : Bool) → (if b then 1 else 2) < 256
id-small true = omega arith
id-small false = omega arith

ciphers-Documented : RoundTrip.Documented ciphers
unfolding key_fingerprint take
ciphers-Documented = record {
  opens = λ key gcm nonce plaintext made size. ground arith;
  sealed_bytes = λ key gcm nonce plaintext made text.
      subst (λ g. IsBytes (g.seal nonce plaintext)) (ap cipher_in made) text;
  nonce_length = λ n w v nonce h. ground (arith, zeros-IsBytes n, length-zeros n);
  fingerprint_length = λ key. ((id-small (starts_with_one key), zeros-IsBytes 7), refl);
}

abbrev old_key : Text
old_key = 1 ∷ zeros 31

abbrev new_key : Text
new_key = 2 ∷ zeros 31

abbrev first : AesEncryptor
first = record {
  current = open_cipher;
  current_id = 1 ∷ zeros 7;
  keys = (1 ∷ zeros 7, open_cipher) ∷ [];
}

abbrev rotated : AesEncryptor
rotated = record {
  current = open_cipher;
  current_id = 2 ∷ zeros 7;
  keys = (2 ∷ zeros 7, open_cipher) ∷ (1 ∷ zeros 7, open_cipher) ∷ [];
}

first_made : new_aes_encryptor ciphers old_key [] ≡ ok first
unfolding new_aes_encryptor key_fingerprint take cipher_of add_keys put
first_made = refl

rotated_made : new_aes_encryptor ciphers new_key (old_key ∷ []) ≡ ok rotated
unfolding new_aes_encryptor key_fingerprint take cipher_of add_keys put Text.text_eq
rotated_made = refl

secret_sealed :
    encrypt ciphers first (codes "secret") tt
    ≡ (ok (encode ((1 ∷ zeros 7) ++ (zeros 12 ++ codes "secret"))), tt)
unfolding encrypt
secret_sealed = refl

decrypt-encrypt_example :
    decrypt rotated (encode ((1 ∷ zeros 7) ++ (zeros 12 ++ codes "secret"))) ≡ ok (codes "secret")
decrypt-encrypt_example =
    decrypt-encrypt ciphers ciphers-Documented old_key new_key [] (old_key ∷ []) first rotated
      (codes "secret") (encode ((1 ∷ zeros 7) ++ (zeros 12 ++ codes "secret"))) tt tt first_made
      rotated_made (inr (inl (refl, tt))) (omega arith) secret_sealed
