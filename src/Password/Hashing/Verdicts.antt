-- ===== src/Password/Hashing/Verdicts.antt =====
-- What verifyPassword and needsRehash of password.go say of a hash that hashPassword wrote.
use sulis.Base.{ℕ, ◌<◌, ◌≡◌, ◌≢◌, ◌⊎◌, ◌↔◌, subst, inl, inr, Bool, true, false, arith, length}
use sulis.Base.Text.{Text, codes, text_eq_iff, text_eq_refl}
use sulis.Base.Base64.RoundTrip.{IsBytes}
use sulis.Error.{ok, Result-cases}
use sulis.Exec.{Exec, >>=-eq-ok}
use sulis.Service.Tokens.{wrapping}
use sulis.Password.{Argon2Params, Primitives}
use sulis.Password.Stored.{decode_hash}
use sulis.Password.Stored.RoundTrip.{InBounds, decode_hash-InBounds, decode_hash-encode_hash}
use sulis.Password.Hashing.{
  key_of, normalize_password, hash_password, compare, verify_decoded, verify_password, needs_rehash,
}

-- The documented results of crypto/rand and argon2.IDKey: as many bytes as they are asked for.
pub record Documented {W : Type 0} (prims : Primitives W) : Type 0 where
  pub random_length :
      (n : ℕ) (w v : W) (salt : Text)
      → prims.random_bytes n w ≡ (ok salt, v)
      → IsBytes salt × (length salt ≡ n)
  pub key_length :
      (password salt : Text) (iterations memory parallelism n : ℕ)
      → IsBytes (prims.id_key password salt iterations memory parallelism n)
        × (length (prims.id_key password salt iterations memory parallelism n) ≡ n)

wrapping-ok :
    {W A : Type 0} (message : Text) (m : Exec W A) (w v : W) (a : A)
    → wrapping message m w ≡ (ok a, v)
    → m w ≡ (ok a, v)
wrapping-ok message m w v a h = ground arith

module _ {W : Type 0} (prims : Primitives W) (doc : Documented prims) where
  -- what a password was hashed to, decoded
  pub decode-hash_password :
      (password pepper encoded : Text) (params : Argon2Params) (w v : W)
      → InBounds params
      → hash_password prims password params pepper w ≡ (ok encoded, v)
      → (salt : Text) × (decode_hash encoded
          ≡ ok (params, salt, key_of prims (normalize_password prims password) pepper params salt))
  unfolding hash_password
  decode-hash_password password pepper encoded params w v b h =
      let (salt, u, drawn, done) =
        >>=-eq-ok
          (wrapping (codes "sulis: generating salt") (prims.random_bytes params.salt_length)) _ w
          h in
      let (salt_bytes, salt_length) = doc.random_length params.salt_length w u salt (
        wrapping-ok (codes "sulis: generating salt") (prims.random_bytes params.salt_length) w u
          salt drawn) in
      let key = key_of prims (normalize_password prims password) pepper params salt in
      let (key_bytes, key_length) = doc.key_length _ salt _ _ _ params.key_length in
      (
        salt,
        subst (λ text. decode_hash text ≡ ok (params, salt, key)) (ground arith)
            (decode_hash-encode_hash params salt key b salt_bytes key_bytes salt_length key_length),
      )

  -- Where crypto/rand and Argon2 return as many bytes as they are asked for, and for parameters within
  -- the bounds of decodeHash: a password whose NFKC form is that of the hashed password matches the
  -- hash, and not only by its raw bytes, and the hash needs no other one for the same parameters.
  pub verify_password-hash_password :
      (password other pepper encoded : Text) (params : Argon2Params) (w v : W)
      → InBounds params
      → prims.nfkc other ≡ prims.nfkc password
      → hash_password prims password params pepper w ≡ (ok encoded, v)
      → (verify_password prims other encoded pepper ≡ ok (true, false))
        × (needs_rehash encoded params ≡ false)
  unfolding verify_password verify_decoded compare needs_rehash
  verify_password-hash_password password other pepper encoded params w v b same h =
      let (salt, read) = decode-hash_password password pepper encoded params w v b h in
      let key = key_of prims (normalize_password prims password) pepper params salt in
      (ground (arith, read, same, text_eq_refl key), ground (arith, read))

  -- Where crypto/rand and Argon2 return as many bytes as they are asked for, a hash that was written
  -- with parameters within the bounds of decodeHash is replaced exactly if one of its three costs is
  -- below the wanted one.
  pub needs_rehash-hash_password_iff :
      (password pepper encoded : Text) (params want : Argon2Params) (w v : W)
      → InBounds params
      → hash_password prims password params pepper w ≡ (ok encoded, v)
      → (needs_rehash encoded want ≡ true) ↔ (
          (params.memory < want.memory)
          ⊎ ((params.iterations < want.iterations) ⊎ (params.parallelism < want.parallelism)))
  unfolding needs_rehash
  needs_rehash-hash_password_iff password pepper encoded params want w v b h =
      let (salt, read) = decode-hash_password password pepper encoded params w v b h in
      ground (arith, read)

-- A password matches a stored hash only if the hash decodes within the bounds and is the key of the
-- password's NFKC form, or, where that fails and the form differs from the raw bytes, of the raw bytes.
pub verify_password-ok_true :
    {W : Type 0} (prims : Primitives W) (password encoded pepper : Text) (legacy : Bool)
    → verify_password prims password encoded pepper ≡ ok (true, legacy)
    → (params : Argon2Params) × (salt : Text) × (hash : Text) × (decode_hash encoded
        ≡ ok (params, salt, hash))
      × InBounds params
      × (((legacy ≡ false) × (hash ≡ key_of prims (prims.nfkc password) pepper params salt))
          ⊎ ((legacy ≡ true)
              × (prims.nfkc password ≢ password)
              × (hash ≢ key_of prims (prims.nfkc password) pepper params salt)
              × (hash ≡ key_of prims password pepper params salt)))
unfolding verify_password verify_decoded compare
verify_password-ok_true prims password encoded pepper legacy h =
    elim (Result-cases (decode_hash encoded)) [
      | inr (e, failed) ↦ ground (arith, failed)
      | inl ((params, salt, hash), read) ↦ (
        params,
        salt,
        hash,
        read,
        (decode_hash-InBounds encoded params salt hash read).0,
        ground (
          arith,
          read,
          text_eq_iff hash (key_of prims (prims.nfkc password) pepper params salt),
          text_eq_iff hash (key_of prims password pepper params salt),
          text_eq_iff (prims.nfkc password) password,
        ),
      )
    ]
