-- ===== src/Password/Stored/RoundTrip.antt =====
-- decodeHash of password.go on what hashPassword prints, and the bounds of what it accepts.
use mathlib.Core.List.{append-nil}
use sulis.Base.{
  ℕ, ◌+◌, ◌*◌, ◌^◌, ◌≤◌, ◌<◌, ◌≡◌, ◌≢◌, refl, ap, ◌∙◌, Bool, true, false, Option, none, some, not,
  List, [], ◌∷◌, ◌++◌, arith, length, All, if◌then◌else◌,
}
use sulis.Base.Text.{Text, codes, text_eq, text_eq_refl, cut_prefix}
use sulis.Base.Decimal.{
  print_decimal, print_before-All, scan_number, scan_number-print_decimal, pow10,
}
use sulis.Base.Split.{split, Lacks, split-Lacks, split-append}
use sulis.Base.Base64.{encode_raw, decode_raw}
use sulis.Base.Base64.RoundTrip.{IsBytes, IsSymbol, encode_raw-IsSymbol, decode_raw-encode_raw}
use sulis.Base.Chain.{>>=-eq-some}
use sulis.Error.{Error, Result, ok}
use sulis.Error.Chain.{>>=-eq-ok, refuse_if, or_error}
use sulis.Password.{Argon2Params}
use sulis.Password.Costs.{scan_version, scan_costs}
use sulis.Password.Stored.{
  costs_text, encode_hash, out_of_bounds, decode_parts, decode_split, decode_hash, argon2_version,
  is_version,
}

-- The bounds of decodeHash on the costs and on the lengths of the salt and the hash.
pub record InBounds (params : Argon2Params) : Type 0 where
  pub some_thread : 0 < params.parallelism
  pub few_threads : params.parallelism < 256
  pub some_round : 0 < params.iterations
  pub few_rounds : params.iterations ≤ 1024
  pub memory_least : 8 * params.parallelism ≤ params.memory
  pub memory_most : params.memory ≤ 2 ^ 22
  pub salt_least : 8 ≤ params.salt_length
  pub salt_most : params.salt_length ≤ 64
  pub key_least : 16 ≤ params.key_length
  pub key_most : params.key_length ≤ 128

Lacks-append : (c : ℕ) (s t : Text) → Lacks c s → Lacks c t → Lacks c (s ++ t)
Lacks-append c [] t ls lt = lt
Lacks-append c (x ∷ s) t (lx, ls) lt = (lx, Lacks-append c s t ls lt)

print_decimal-Lacks : (n : ℕ) → Lacks b'$' (print_decimal n)
unfolding print_decimal
print_decimal-Lacks n = print_before-All (λ c. c ≢ b'$') 20 n [] (λ d small. omega arith) tt

symbols-Lacks : (s : Text) → All IsSymbol s → Lacks b'$' s
symbols-Lacks [] a = tt
symbols-Lacks (c ∷ s) (ac, others) = (ac.2, symbols-Lacks s others)

encode_raw-Lacks : (s : Text) → IsBytes s → Lacks b'$' (encode_raw s)
encode_raw-Lacks s b = symbols-Lacks (encode_raw s) (encode_raw-IsSymbol s b)

cut_prefix-append : (p s : Text) → cut_prefix (p ++ s) p ≡ some s
unfolding cut_prefix
cut_prefix-append [] s = refl
cut_prefix-append (c ∷ p) s = ground (arith, cut_prefix-append p s)

costs_text-Lacks : (params : Argon2Params) → Lacks b'$' (costs_text params)
unfolding costs_text
costs_text-Lacks params = labelled (codes "m=") params.memory (codes ",t=" ++ _) (omega arith) (
    labelled (codes ",t=") params.iterations (codes ",p=" ++ _) (omega arith)
      (Lacks-append b'$' (codes ",p=") _ (omega arith) (print_decimal-Lacks params.parallelism)))
  where
    labelled :
        (label : Text) (n : ℕ) (rest : Text)
        → Lacks b'$' label
        → Lacks b'$' rest
        → Lacks b'$' (label ++ (print_decimal n ++ rest))
    labelled label n rest plain others =
        Lacks-append b'$' label _ plain
          (Lacks-append b'$' (print_decimal n) rest (print_decimal-Lacks n) others)

scan_costs-costs_text :
    (params : Argon2Params)
    → InBounds params
    → scan_costs (costs_text params) ≡ some (params.memory, params.iterations, params.parallelism)
unfolding scan_costs costs_text
scan_costs-costs_text params b =
    let third = codes ",p=" ++ print_decimal params.parallelism in
    let second = codes ",t=" ++ (print_decimal params.iterations ++ third) in
    ground (
      arith,
      scan_number-print_decimal (2 ^ 32) params.memory second (omega arith) (omega arith) refl,
      scan_number-print_decimal (2 ^ 32) params.iterations third (omega arith) (omega arith) refl,
      scan_number-print_decimal (2 ^ 8) params.parallelism [] (omega arith) (omega arith) refl,
      append-nil (print_decimal params.parallelism),
      cut_prefix-append (codes ",t=") (print_decimal params.iterations ++ third),
      cut_prefix-append (codes ",p=") (print_decimal params.parallelism),
    )

scan_version-print : scan_version (codes "v=" ++ print_decimal argon2_version) ≡ some (false, 19)
unfolding scan_version print_decimal sulis.Base.Decimal.scan_signed sulis.Base.Decimal.print_before
    sulis.Base.Decimal.read_digits
scan_version-print = refl

part :
    (s rest : Text) {parts : List Text}
    → Lacks b'$' s
    → split b'$' rest ≡ parts
    → split b'$' (s ++ (b'$' ∷ rest)) ≡ s ∷ parts
part s rest lacks h = split-append b'$' s rest lacks ∙ ap (λ ps. s ∷ ps) h

split-encode_hash :
    (params : Argon2Params) (salt hash : Text)
    → IsBytes salt
    → IsBytes hash
    → split b'$' (encode_hash params salt hash)
      ≡ []
        ∷ codes "argon2id"
        ∷ (codes "v=" ++ print_decimal argon2_version)
        ∷ costs_text params
        ∷ encode_raw salt
        ∷ encode_raw hash
        ∷ []
unfolding encode_hash
split-encode_hash params salt hash salt_bytes hash_bytes = part [] _ tt (
    part (codes "argon2id") _ (omega arith) (
      part (codes "v=" ++ print_decimal argon2_version) _
        (Lacks-append b'$' (codes "v=") _ (omega arith) (print_decimal-Lacks argon2_version))
        (part (costs_text params) _ (costs_text-Lacks params) (
          part (encode_raw salt) _ (encode_raw-Lacks salt salt_bytes)
            (split-Lacks b'$' (encode_raw hash) (encode_raw-Lacks hash hash_bytes))))))

out_of_bounds-false :
    (params : Argon2Params) (salt hash : Text)
    → InBounds params
    → length salt ≡ params.salt_length
    → length hash ≡ params.key_length
    → out_of_bounds params.memory params.iterations params.parallelism salt hash ≡ false
unfolding out_of_bounds
out_of_bounds-false params salt hash b ls lh = ground arith

-- decodeHash reads back what hashPassword prints: the costs, the salt and the hash, for costs and
-- lengths within the bounds of decodeHash.
pub decode_hash-encode_hash :
    (params : Argon2Params) (salt hash : Text)
    → InBounds params
    → IsBytes salt
    → IsBytes hash
    → length salt ≡ params.salt_length
    → length hash ≡ params.key_length
    → decode_hash (encode_hash params salt hash) ≡ ok (params, salt, hash)
unfolding decode_hash decode_split decode_parts
decode_hash-encode_hash params salt hash b salt_bytes hash_bytes ls lh =
    rw (split-encode_hash params salt hash salt_bytes hash_bytes) (
      ground (
        arith,
        text_eq_refl (codes "argon2id"),
        scan_version-print,
        scan_costs-costs_text params b,
        decode_raw-encode_raw salt salt_bytes,
        decode_raw-encode_raw hash hash_bytes,
        out_of_bounds-false params salt hash b ls lh,
      ))

scan_number-lt : (limit n : ℕ) (s rest : Text) → scan_number limit s ≡ some (n, rest) → n < limit
unfolding scan_number
scan_number-lt limit n s rest h = ground arith

scan_costs-lt : (s : Text) (m t p : ℕ) → scan_costs s ≡ some (m, t, p) → p < 256
unfolding scan_costs
scan_costs-lt s m t p h =
    let (s1, e1, h1) = >>=-eq-some (cut_prefix s (codes "m=")) _ h in
    let (r1, f1, h2) = >>=-eq-some (scan_number (2 ^ 32) s1) _ h1 in
    let (s2, e2, h3) = >>=-eq-some (cut_prefix r1.1 (codes ",t=")) _ h2 in
    let (r2, f2, h4) = >>=-eq-some (scan_number (2 ^ 32) s2) _ h3 in
    let (s3, e3, h5) = >>=-eq-some (cut_prefix r2.1 (codes ",p=")) _ h4 in
    let (r3, f3, h6) = >>=-eq-some (scan_number (2 ^ 8) s3) _ h5 in
    ground (arith, scan_number-lt (2 ^ 8) r3.0 s3 r3.1 f3)

-- What the last test of decodeHash lets through.
accepted-InBounds :
    (m t p : ℕ) (s k : Text) (params : Argon2Params) (salt hash : Text) (e : Error)
    → p < 256
    → refuse_if (out_of_bounds m t p s k) e ≡ ok tt
    → ◌≡◌ {A = Result (Argon2Params × Text × Text)}
        (ok (
          record {
            memory = m;
            iterations = t;
            parallelism = p;
            salt_length = length s;
            key_length = length k;
          },
          s,
          k,
        ))
        (ok (params, salt, hash))
    → InBounds params × (length salt ≡ params.salt_length) × (length hash ≡ params.key_length)
unfolding out_of_bounds
accepted-InBounds m t p s k params salt hash e few small h = (
  record {
    some_thread = ground arith;
    few_threads = ground arith;
    some_round = ground arith;
    few_rounds = ground arith;
    memory_least = ground arith;
    memory_most = ground arith;
    salt_least = ground arith;
    salt_most = ground arith;
    key_least = ground arith;
    key_most = ground arith;
  },
  ground arith,
  ground arith,
)

or_error-ok : {A : Type 0} (o : Option A) (e : Error) (a : A) → or_error o e ≡ ok a → o ≡ some a
or_error-ok none e a h = ground arith
or_error-ok (some b) e a h = ground arith

decode_parts-InBounds :
    (algorithm version costs salt_part hash_part : Text) (params : Argon2Params) (salt hash : Text)
    → decode_parts algorithm version costs salt_part hash_part ≡ ok (params, salt, hash)
    → InBounds params × (length salt ≡ params.salt_length) × (length hash ≡ params.key_length)
unfolding decode_parts out_of_bounds
decode_parts-InBounds algorithm version costs salt_part hash_part params salt hash h =
    let (_, _, h1) = >>=-eq-ok (refuse_if (not (text_eq algorithm (codes "argon2id"))) _) _ h in
    let (v, _, h2) = >>=-eq-ok (or_error (scan_version version) _) _ h1 in
    let (_, _, h3) = >>=-eq-ok (refuse_if (not (is_version v)) _) _ h2 in
    let (read, e, h4) = >>=-eq-ok (or_error (scan_costs costs) _) _ h3 in
    let (s, _, h5) = >>=-eq-ok (or_error (decode_raw salt_part) _) _ h4 in
    let (k, _, h6) = >>=-eq-ok (or_error (decode_raw hash_part) _) _ h5 in
    let (_, small, h7) = >>=-eq-ok (refuse_if (out_of_bounds read.0 read.1 read.2 s k) _) _ h6 in
    accepted-InBounds read.0 read.1 read.2 s k params salt hash _
      (scan_costs-lt costs read.0 read.1 read.2 (or_error-ok (scan_costs costs) _ read e)) small h7

decode_split-InBounds :
    (parts : List Text) (params : Argon2Params) (salt hash : Text)
    → decode_split parts ≡ ok (params, salt, hash)
    → InBounds params × (length salt ≡ params.salt_length) × (length hash ≡ params.key_length)
unfolding decode_split
decode_split-InBounds [] params salt hash h = cc
decode_split-InBounds (a ∷ []) params salt hash h = cc
decode_split-InBounds (a ∷ b ∷ []) params salt hash h = cc
decode_split-InBounds (a ∷ b ∷ c ∷ []) params salt hash h = cc
decode_split-InBounds (a ∷ b ∷ c ∷ d ∷ []) params salt hash h = cc
decode_split-InBounds (a ∷ b ∷ c ∷ d ∷ e ∷ []) params salt hash h = cc
decode_split-InBounds (a ∷ b ∷ c ∷ d ∷ e ∷ f ∷ []) params salt hash h =
    decode_parts-InBounds b c d e f params salt hash h
decode_split-InBounds (a ∷ b ∷ c ∷ d ∷ e ∷ f ∷ g ∷ rest) params salt hash h = cc

-- Whatever text decodeHash accepts, the work that it asks of Argon2 is bounded: at most 4 GiB of
-- memory, 1024 rounds, 255 threads and a key of 128 bytes, with at least 8 KiB for each thread. The
-- salt and the hash have the lengths that the parameters say.
pub decode_hash-InBounds :
    (encoded : Text) (params : Argon2Params) (salt hash : Text)
    → decode_hash encoded ≡ ok (params, salt, hash)
    → InBounds params × (length salt ≡ params.salt_length) × (length hash ≡ params.key_length)
unfolding decode_hash
decode_hash-InBounds encoded params salt hash h =
    decode_split-InBounds (split b'$' encoded) params salt hash h
