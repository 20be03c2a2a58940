-- ===== src/Totp/Encryption/RoundTrip.antt =====
-- Decrypting what AESEncryptor of totp/encrypt.go encrypted, across a rotation of keys.
use sulis.Base.{
  ℕ, ◌<◌, ◌≡◌, sym, subst, false, some, List, [], ◌∷◌, ◌++◌, length, take, drop, take-append,
  drop-append, length-append, All, All-append, arith, ◌∙◌, ◌⊎◌, inl, inr, Bool-cases,
}
use sulis.Base.Text.{Text, text_eq, text_eq_sound, text_eq_iff, text_eq_refl}
use sulis.Base.Dict.{get, put, get-put}
use sulis.Base.Base64.{encode}
use sulis.Base.Base64.RoundTrip.{IsBytes, decode-encode}
use sulis.Error.{ok, Result-cases}
use sulis.Error.Chain.{>>=-eq-ok}
use sulis.Totp.Encryption.{
  Aead, Ciphers, AesEncryptor, key_fingerprint, cipher_of, add_keys, new_aes_encryptor, encrypt,
  decrypt, open_with,
}

-- The documented behaviour of the packages: what is sealed is opened, drawn nonces have the size that
-- was asked for, a fingerprint has its eight bytes, and all of these are bytes.
pub record Documented {W : Type 0} (ciphers : Ciphers W) : Type 0 where
  pub opens :
      (key : Text) (gcm : Aead) (nonce plaintext : Text)
      → ciphers.new_gcm key ≡ ok gcm
      → length nonce ≡ gcm.nonce_size
      → gcm.open_sealed nonce (gcm.seal nonce plaintext) ≡ ok plaintext
  pub sealed_bytes :
      (key : Text) (gcm : Aead) (nonce plaintext : Text)
      → ciphers.new_gcm key ≡ ok gcm
      → IsBytes plaintext
      → IsBytes (gcm.seal nonce plaintext)
  pub nonce_length :
      (n : ℕ) (w v : W) (nonce : Text)
      → ciphers.random_bytes n w ≡ (ok nonce, v)
      → IsBytes nonce × (length nonce ≡ n)
  pub fingerprint_length :
      (key : Text)
      → IsBytes (key_fingerprint ciphers key) × (length (key_fingerprint ciphers key) ≡ 8)

ok-injective : {A : Type 0} {a b : A} → ok a ≡ ok b → a ≡ b
ok-injective h = ground arith

text_eq-cases : (s t : Text) → (s ≡ t) ⊎ (text_eq s t ≡ false)
text_eq-cases s t = elim (Bool-cases (text_eq s t)) [
  | inl same ↦ inl (text_eq_sound s t same)
  | inr differs ↦ inr differs
]

module _ {W : Type 0} (ciphers : Ciphers W) where
  -- no other one of the keys has the fingerprint of the key
  abbrev pub Identifies : Text → List Text → Type 0
  Identifies key keys =
      All (λ other. key_fingerprint ciphers other ≡ key_fingerprint ciphers key → other ≡ key) keys

  -- A cipher that is there stays there: only its own key has its fingerprint.
  add_keys-kept :
      (key : Text) (gcm : Aead) (keys : List Text) (enc enc' : AesEncryptor)
      → Identifies key keys
      → cipher_of ciphers key ≡ ok gcm
      → get (key_fingerprint ciphers key) enc.keys ≡ some gcm
      → add_keys ciphers keys enc ≡ ok enc'
      → get (key_fingerprint ciphers key) enc'.keys ≡ some gcm
  unfolding add_keys
  add_keys-kept key gcm [] enc enc' unique opened there done = ground (arith, there)
  add_keys-kept key gcm (other ∷ keys) enc enc' (own, unique) opened there done =
      let (g, opened', more) = >>=-eq-ok (cipher_of ciphers other) _ done in
      add_keys-kept key gcm keys _ enc' unique opened
        (replaced g (text_eq-cases (key_fingerprint ciphers other) (key_fingerprint ciphers key))
          opened')
        more
    where
      replaced :
          (g : Aead)
          → (key_fingerprint ciphers other ≡ key_fingerprint ciphers key)
            ⊎ (text_eq (key_fingerprint ciphers other) (key_fingerprint ciphers key) ≡ false)
          → cipher_of ciphers other ≡ ok g
          → get (key_fingerprint ciphers key) (put (key_fingerprint ciphers other) g enc.keys)
            ≡ some gcm
      replaced g (inl same) opened' = ground (
        arith,
        opened,
        own same,
        get-put (key_fingerprint ciphers other) (key_fingerprint ciphers key) g enc.keys,
        text_eq_iff (key_fingerprint ciphers other) (key_fingerprint ciphers key),
      )
      replaced g (inr differs) opened' = ground (
        arith,
        there,
        differs,
        get-put (key_fingerprint ciphers other) (key_fingerprint ciphers key) g enc.keys,
      )

  add_keys-current :
      (keys : List Text) (enc enc' : AesEncryptor)
      → add_keys ciphers keys enc ≡ ok enc'
      → (enc'.current ≡ enc.current) × (enc'.current_id ≡ enc.current_id)
  unfolding add_keys
  add_keys-current [] enc enc' done = (ground arith, ground arith)
  add_keys-current (other ∷ keys) enc enc' done =
      let (gcm, opened, more) = >>=-eq-ok (cipher_of ciphers other) _ done in
      add_keys-current keys (record enc { keys = put (key_fingerprint ciphers other) gcm enc.keys })
        enc' more

  -- The key is among the keys, and no later one of them has its fingerprint.
  abbrev pub IsHeld : Text → List Text → Type 0
  IsHeld key [] = ⊥
  IsHeld key (k ∷ keys) = ((k ≡ key) × Identifies key keys) ⊎ IsHeld key keys

  add_keys-found :
      (key : Text) (keys : List Text) (enc enc' : AesEncryptor)
      → IsHeld key keys
      → add_keys ciphers keys enc ≡ ok enc'
      → (gcm : Aead) × (cipher_of ciphers key ≡ ok gcm)
        × (get (key_fingerprint ciphers key) enc'.keys ≡ some gcm)
  unfolding add_keys
  add_keys-found key [] enc enc' held done = absurd held
  add_keys-found key (k ∷ keys) enc enc' (inr later) done =
      let (g, opened, more) = >>=-eq-ok (cipher_of ciphers k) _ done in
      add_keys-found key keys _ enc' later more
  add_keys-found key (k ∷ keys) enc enc' (inl (same, unique)) done =
      let (g, opened, more) = >>=-eq-ok (cipher_of ciphers k) _ done in
      let opened_key = subst (λ x. cipher_of ciphers x ≡ ok g) same opened in
      (
        g,
        opened_key,
        add_keys-kept key g keys _ enc' unique opened_key
            (ground (
              arith,
              same,
              get-put (key_fingerprint ciphers k) (key_fingerprint ciphers key) g enc.keys,
              text_eq_refl (key_fingerprint ciphers key),
            ))
            more,
      )

  encryptor-found :
      (key current : Text) (rotated : List Text) (enc : AesEncryptor)
      → IsHeld key (current ∷ rotated)
      → new_aes_encryptor ciphers current rotated ≡ ok enc
      → (gcm : Aead) × (cipher_of ciphers key ≡ ok gcm)
        × (get (key_fingerprint ciphers key) enc.keys ≡ some gcm)
  unfolding new_aes_encryptor add_keys
  encryptor-found key current rotated enc held done =
      let (gcm, opened, more) = >>=-eq-ok (cipher_of ciphers current) _ done in
      add_keys-found key (current ∷ rotated)
        (record { current = gcm; current_id = key_fingerprint ciphers current; keys = [] }) enc held
        (rw opened more)

  encryptor-current :
      (key : Text) (older : List Text) (enc : AesEncryptor)
      → new_aes_encryptor ciphers key older ≡ ok enc
      → (cipher_of ciphers key ≡ ok enc.current) × (enc.current_id ≡ key_fingerprint ciphers key)
  unfolding new_aes_encryptor
  encryptor-current key older enc done =
      let (gcm, opened, more) = >>=-eq-ok (cipher_of ciphers key) _ done in
      ground (arith, opened, add_keys-current older _ enc more)

  cipher_of-ok :
      (key : Text) (gcm : Aead) → cipher_of ciphers key ≡ ok gcm → ciphers.new_gcm key ≡ ok gcm
  unfolding cipher_of
  cipher_of-ok key gcm h = ground (arith, h)

  encrypt-eq-ok :
      (enc : AesEncryptor) (plaintext ciphertext : Text) (w v : W)
      → encrypt ciphers enc plaintext w ≡ (ok ciphertext, v)
      → (nonce : Text) × (u : W) × (ciphers.random_bytes enc.current.nonce_size w ≡ (ok nonce, u))
        × (ciphertext ≡ encode (enc.current_id ++ (nonce ++ enc.current.seal nonce plaintext)))
  unfolding encrypt
  encrypt-eq-ok enc plaintext ciphertext w v h =
      elim (Result-cases (ciphers.random_bytes enc.current.nonce_size w).0) [
        | inl (nonce, drawn) ↦ (
          nonce,
          (ciphers.random_bytes enc.current.nonce_size w).1,
          ground (arith, drawn),
          ground (arith, drawn),
        )
        | inr (e, failed) ↦ absurd (ground (arith, failed))
      ]

  module _ (doc : Documented ciphers) where
    open_with-seal :
        (key : Text) (gcm : Aead) (nonce plaintext : Text)
        → ciphers.new_gcm key ≡ ok gcm
        → length nonce ≡ gcm.nonce_size
        → open_with gcm (nonce ++ gcm.seal nonce plaintext) ≡ ok plaintext
    unfolding open_with
    open_with-seal key gcm nonce plaintext made size =
        let sealed = gcm.seal nonce plaintext in
        ground (
          arith,
          size,
          subst (λ n. take n (nonce ++ sealed) ≡ nonce) size (take-append nonce sealed),
          subst (λ n. drop n (nonce ++ sealed) ≡ sealed) size (drop-append nonce sealed),
          doc.opens key gcm nonce plaintext made size,
          length-append nonce sealed,
        )

    decrypt-sealed :
        (key : Text) (gcm : Aead) (enc : AesEncryptor) (nonce plaintext : Text)
        → cipher_of ciphers key ≡ ok gcm
        → get (key_fingerprint ciphers key) enc.keys ≡ some gcm
        → IsBytes nonce
        → IsBytes plaintext
        → length nonce ≡ gcm.nonce_size
        → decrypt enc (encode (key_fingerprint ciphers key ++ (nonce ++ gcm.seal nonce plaintext)))
          ≡ ok plaintext
    unfolding decrypt
    decrypt-sealed key gcm enc nonce plaintext opened there bytes text size =
        let made = cipher_of-ok key gcm opened in
        let id = key_fingerprint ciphers key in
        let rest = nonce ++ gcm.seal nonce plaintext in
        let (id_bytes, id_size) = doc.fingerprint_length key in
        let rest_bytes =
          All-append (λ c. c < 256) nonce (gcm.seal nonce plaintext) bytes
            (doc.sealed_bytes key gcm nonce plaintext made text) in
        ground (
          arith,
          there,
          decode-encode (id ++ rest) (All-append (λ c. c < 256) id rest id_bytes rest_bytes),
          subst (λ n. take n (id ++ rest) ≡ id) id_size (take-append id rest),
          subst (λ n. drop n (id ++ rest) ≡ rest) id_size (drop-append id rest),
          length-append id rest,
          id_size,
          open_with-seal key gcm nonce plaintext made size,
        )

    -- Under the documented behaviour of AES-GCM, HMAC and crypto/rand, a secret of bytes that was
    -- encrypted under a key is decrypted by every encryptor that holds the key, as its
    -- current one or as one that was rotated out, where no later one of its keys has the key's
    -- fingerprint.
    pub decrypt-encrypt :
        (key current : Text) (older rotated : List Text) (enc dec : AesEncryptor)
        (plaintext ciphertext : Text) (w v : W)
        → new_aes_encryptor ciphers key older ≡ ok enc
        → new_aes_encryptor ciphers current rotated ≡ ok dec
        → IsHeld key (current ∷ rotated)
        → IsBytes plaintext
        → encrypt ciphers enc plaintext w ≡ (ok ciphertext, v)
        → decrypt dec ciphertext ≡ ok plaintext
    decrypt-encrypt key current older rotated enc dec plaintext ciphertext w v made_enc made_dec
          held text h =
        let (opened, id) = encryptor-current key older enc made_enc in
        let (gcm, opened', there) = encryptor-found key current rotated dec held made_dec in
        let (nonce, u, drawn, sealed) = encrypt-eq-ok enc plaintext ciphertext w v h in
        let (bytes, size) = doc.nonce_length enc.current.nonce_size w u nonce drawn in
        let same : enc.current ≡ gcm = ok-injective (sym opened ∙ opened') in
        rw sealed (
          rw id (
            decrypt-sealed key enc.current dec nonce plaintext opened
              (subst (λ g. get (key_fingerprint ciphers key) dec.keys ≡ some g) (sym same) there)
              bytes text size))
