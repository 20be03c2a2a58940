-- ===== src/Password/Hashing.antt =====
-- applyPepper, hashPassword, verifyPassword and needsRehash of password.go. The pepper and the
-- parameters are the service's configuration; `primitive_hasher` is what they are to the service.
pub mod Verdicts
use sulis.Base.{ℕ, Bool, true, false, ◌||◌, List, [], ◌∷◌, ltb, if◌then◌else◌, arith, ◌≡◌}
use sulis.Base.Text.{Text, codes, text_eq, is_empty}
use sulis.Error.{Result, ok, err, panicked}
use sulis.Error.Chain
use sulis.Exec.{Exec, pure, throw, ◌>>=◌, ◌>>◌}
use sulis.Service.{Hasher}
use sulis.Service.Tokens.{wrapping}
use sulis.Password.{Argon2Params, Primitives}
use sulis.Password.Stored.{encode_hash, decode_hash}

unfoldable pub needs_rehash : Text → Argon2Params → Bool
needs_rehash encoded want = elim (decode_hash encoded) [
  | err _ ↦ false
  | ok (got, salt, hash) ↦
      ltb got.memory want.memory
      || ltb got.iterations want.iterations
      || ltb got.parallelism want.parallelism
]

module _ {W : Type 0} (prims : Primitives W) where
  abbrev pub normalize_password : Text → Text
  normalize_password password = prims.nfkc password

  unfoldable pub apply_pepper : Text → Text → Text
  apply_pepper candidate pepper =
      if is_empty pepper then candidate else prims.hmac_sha256 pepper candidate

  -- the key that a candidate gives with the salt and the costs
  abbrev pub key_of : Text → Text → Argon2Params → Text → Text
  key_of candidate pepper params salt =
      prims.id_key (apply_pepper candidate pepper) salt params.iterations params.memory
        params.parallelism params.key_length

  -- argon2.IDKey panics with the costs of the parameters
  abbrev pub is_refused : Argon2Params → Bool
  is_refused params =
      prims.id_key_panics params.iterations params.memory params.parallelism params.key_length

  -- A panic is the error `panicked`, which the callers but New treat as any other: New, which made the
  -- service, has called this with the same parameters, and has not returned where it panics.
  unfoldable pub hash_password : Text → Argon2Params → Text → Exec W Text
  hash_password password params pepper = do
    salt ← wrapping (codes "sulis: generating salt") (prims.random_bytes params.salt_length)
    if is_refused params then throw panicked else pure tt
    pure (encode_hash params salt (key_of (normalize_password password) pepper params salt))

  -- the closure of verifyPassword, compare, with the costs of a hash that decodeHash has accepted
  unfoldable pub compare : Text → Argon2Params → Text → Text → Text → Bool
  compare pepper params salt hash candidate = text_eq hash (key_of candidate pepper params salt)

  unfoldable pub verify_decoded : Text → Text → Argon2Params → Text → Text → Bool × Bool
  verify_decoded password pepper params salt hash =
      let normalized = normalize_password password in
      if compare pepper params salt hash normalized
      then (true, false)
      else if text_eq normalized password
      then (false, false)
      else if compare pepper params salt hash password
      then (true, true)
      else (false, false)

  -- whether the password matches, and whether only its raw bytes do
  unfoldable pub verify_password : Text → Text → Text → Result (Bool × Bool)
  verify_password password encoded pepper = elim (decode_hash encoded) [
    | err e ↦ err e
    | ok (params, salt, hash) ↦ ok (verify_decoded password pepper params salt hash)
  ]

  abbrev pub primitive_hasher : Argon2Params → Text → Hasher W
  primitive_hasher params pepper = record {
    normalize_password = normalize_password;
    hash_password = λ password. hash_password password params pepper;
    verify_password = λ password encoded. verify_password password encoded pepper;
    needs_rehash = λ encoded. needs_rehash encoded params;
  }
