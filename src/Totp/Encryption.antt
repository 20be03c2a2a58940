-- ===== src/Totp/Encryption.antt =====
-- totp/encrypt.go: the secrets encrypted at rest.
--
-- `Ciphers` stands for aes.NewCipher with cipher.NewGCM, HMAC-SHA256 and crypto/rand.
pub mod RoundTrip
use sulis.Base.{
  ℕ, Bool, true, false, not, Option, none, some, List, [], ◌∷◌, ◌++◌, ltb, ◌==◌, if◌then◌else◌,
  length, take, drop,
}
use sulis.Base.Text.{Text, codes}
use sulis.Base.Dict.{Dict, get, put}
use sulis.Base.Base64.{encode, decode}
use sulis.Error.{Error, Result, ok, err, plain, wrapped}
use sulis.Error.Chain.{◌>>=◌, ◌>>◌, refuse_if, or_error}
use sulis.Exec.{Exec}
use sulis.Service.Tokens.{wrapping}
use sulis.Totp.{Encryptor}

-- cipher.AEAD under one key, with no additional data
pub record Aead : Type 0 where
  pub nonce_size : ℕ
  -- the nonce and the plaintext
  pub seal : Text → Text → Text
  -- the nonce and what was sealed
  pub open_sealed : Text → Text → Result Text

pub record Ciphers (W : Type 0) : Type 0 where
  pub new_gcm : Text → Result Aead
  -- the key, then the message
  pub hmac_sha256 : Text → Text → Text
  pub random_bytes : ℕ → Exec W Text

abbrev pub aes_key_size : ℕ
aes_key_size = 32

abbrev pub aes_key_id_size : ℕ
aes_key_id_size = 8

pub record AesEncryptor : Type 0 where
  pub current : Aead
  pub current_id : Text
  pub keys : Dict Aead

module _ {W : Type 0} (ciphers : Ciphers W) where
  unfoldable pub key_fingerprint : Text → Text
  key_fingerprint key =
      take aes_key_id_size (ciphers.hmac_sha256 key (codes "sulis/totp/aes-key-id"))

  -- the cipher of one key, in a round of the loop
  unfoldable pub cipher_of : Text → Result Aead
  cipher_of key = do
    refuse_if (not (length key == aes_key_size))
        (plain (codes "totp: encryption key must be 32 bytes"))
    ciphers.new_gcm key

  -- the rounds of the loop after the first
  unfoldable pub add_keys : List Text → AesEncryptor → Result AesEncryptor
  add_keys [] enc = ok enc
  add_keys (key ∷ rest) enc = do
    gcm ← cipher_of key
    add_keys rest (record enc { keys = put (key_fingerprint key) gcm enc.keys })

  unfoldable pub new_aes_encryptor : Text → List Text → Result AesEncryptor
  new_aes_encryptor key rotated = do
    gcm ← cipher_of key
    add_keys rotated (record {
      current = gcm;
      current_id = key_fingerprint key;
      keys = put (key_fingerprint key) gcm [];
    })

  -- what Encrypt does with the nonce
  abbrev pub sealed_with : AesEncryptor → Text → Result Text × W → Result Text × W
  sealed_with enc plaintext (err e, w) = (err e, w)
  sealed_with enc plaintext (ok nonce, w) =
      (ok (encode (enc.current_id ++ (nonce ++ enc.current.seal nonce plaintext))), w)

  unfoldable pub encrypt : AesEncryptor → Text → Exec W Text
  encrypt enc plaintext w =
      sealed_with enc plaintext
        (wrapping (codes "totp: generating nonce") (ciphers.random_bytes enc.current.nonce_size) w)

-- what Decrypt does with the cipher of the key id
unfoldable pub open_with : Aead → Text → Result Text
open_with gcm rest = do
  refuse_if (ltb (length rest) gcm.nonce_size) (plain (codes "totp: ciphertext truncated"))
  elim (gcm.open_sealed (take gcm.nonce_size rest) (drop gcm.nonce_size rest)) [
    | err e ↦ err (wrapped (codes "totp: decrypting secret") e)
    | ok plaintext ↦ ok plaintext
  ]

unfoldable pub decrypt : AesEncryptor → Text → Result Text
decrypt enc ciphertext = do
  raw ← or_error (decode ciphertext) (plain (codes "totp: decoding ciphertext"))
  refuse_if (ltb (length raw) aes_key_id_size) (plain (codes "totp: ciphertext truncated"))
  gcm ←
      or_error (get (take aes_key_id_size raw) enc.keys)
        (plain (codes "totp: unknown encryption key id"))
  open_with gcm (drop aes_key_id_size raw)

abbrev pub as_encryptor : {W : Type 0} → Ciphers W → AesEncryptor → Encryptor W
as_encryptor ciphers enc = record { encrypt = encrypt ciphers enc; decrypt = decrypt enc }
