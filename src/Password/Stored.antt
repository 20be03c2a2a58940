-- ===== src/Password/Stored.antt =====
-- The PHC text of a hash: what hashPassword of password.go prints, and decodeHash.
pub mod RoundTrip
use sulis.Base.{
  ℕ, ◌+◌, ◌*◌, ◌^◌, Bool, true, false, ◌&&◌, ◌||◌, not, List, [], ◌∷◌, ◌++◌, ltb, ◌==◌,
  if◌then◌else◌, length,
}
use sulis.Base.Text.{Text, codes, text_eq}
use sulis.Base.Decimal.{print_decimal}
use sulis.Base.Split.{split}
use sulis.Base.Base64.{encode_raw, decode_raw}
use sulis.Error.{Error, Result, ok, err, plain, wrapped}
use sulis.Error.Chain.{◌>>=◌, ◌>>◌, refuse_if, or_error}
use sulis.Password.{Argon2Params}
use sulis.Password.Costs.{scan_version, scan_costs}

-- argon2.Version
abbrev pub argon2_version : ℕ
argon2_version = 19

-- m=%d,t=%d,p=%d
unfoldable pub costs_text : Argon2Params → Text
costs_text params =
    codes "m="
    ++ (print_decimal params.memory
        ++ (codes ",t="
            ++ (print_decimal params.iterations
                ++ (codes ",p=" ++ print_decimal params.parallelism))))

-- $argon2id$v=%d$m=%d,t=%d,p=%d$%s$%s
unfoldable pub encode_hash : Argon2Params → Text → Text → Text
unfolding costs_text
encode_hash params salt hash =
    b'$' ∷ codes "argon2id"
    ++ (b'$' ∷ (codes "v=" ++ print_decimal argon2_version)
        ++ (b'$' ∷ costs_text params ++ (b'$' ∷ encode_raw salt ++ (b'$' ∷ encode_raw hash))))

abbrev pub is_version : Bool × ℕ → Bool
is_version (negative, n) = not negative && n == argon2_version

-- what the switch of decodeHash refuses
unfoldable pub out_of_bounds : ℕ → ℕ → ℕ → Text → Text → Bool
out_of_bounds memory iterations parallelism salt hash =
    parallelism == 0
    || (iterations == 0 || ltb 1024 iterations)
    || (ltb memory (8 * parallelism) || ltb (2 ^ 22) memory)
    || (ltb (length salt) 8 || ltb 64 (length salt))
    || (ltb (length hash) 16 || ltb 128 (length hash))

-- the parameters, the salt and the hash, from the six parts between the '$'
unfoldable pub decode_parts : Text → Text → Text → Text → Text → Result (Argon2Params × Text × Text)
decode_parts algorithm version_part costs_part salt_part hash_part = do
  refuse_if (not (text_eq algorithm (codes "argon2id"))) (plain (codes "unsupported algorithm"))
  version ← or_error (scan_version version_part) (plain (codes "parsing version"))
  refuse_if (not (is_version version)) (plain (codes "unsupported argon2 version"))
  costs ← or_error (scan_costs costs_part) (plain (codes "parsing params"))
  salt ← or_error (decode_raw salt_part) (plain (codes "decoding salt"))
  hash ← or_error (decode_raw hash_part) (plain (codes "decoding hash"))
  refuse_if (out_of_bounds costs.0 costs.1 costs.2 salt hash)
      (plain (codes "hash parameters out of bounds"))
  ok (
    record {
      memory = costs.0;
      iterations = costs.1;
      parallelism = costs.2;
      salt_length = length salt;
      key_length = length hash;
    },
    salt,
    hash,
  )

unfoldable pub decode_split : List Text → Result (Argon2Params × Text × Text)
decode_split (first ∷ algorithm ∷ version ∷ costs ∷ salt ∷ hash ∷ []) =
    decode_parts algorithm version costs salt hash
decode_split parts = err (plain (codes "invalid hash format"))

unfoldable pub decode_hash : Text → Result (Argon2Params × Text × Text)
decode_hash encoded = decode_split (split b'$' encoded)
