-- ===== src/Service/Status/Backoff.antt =====
-- The length of an automatic lockout.
use sulis.Base.{
  ℕ, ◌+◌, ◌*◌, ◌^◌, ◌%◌, ◌≤◌, ◌<◌, ◌≡◌, ◌||◌, arith, ltb, leb, ◌==◌, if◌then◌else◌, ap, ◌∙◌,
}
use Prim.Native.Nat.{min}
use native.Mathlib.Nat.{one-le-pow, pow-le-pow_right}
use sulis.Service.Status.{lockout_backoff, shift_left}

-- the last lines of lockoutBackoff, on the shifted duration
capped : ℕ → ℕ → ℕ
capped max_backoff backoff =
    if backoff == 0 || leb (2 ^ 63) backoff || ltb max_backoff backoff then max_backoff else backoff

capped-le : (max_backoff backoff : ℕ) → capped max_backoff backoff ≤ max_backoff
unfolding capped
capped-le max_backoff backoff = ground arith

-- A lockout never lasts longer than the configured maximum.
lockout_backoff-le :
    (base max_backoff excess : ℕ) → lockout_backoff base max_backoff excess ≤ max_backoff
unfolding lockout_backoff capped
lockout_backoff-le base max_backoff excess =
    capped-le max_backoff (shift_left base (if ltb 32 excess then 32 else excess))

abbrev clamp : ℕ → ℕ
clamp excess = if ltb 32 excess then 32 else excess

clamp-le : (excess : ℕ) → clamp excess ≤ 32
clamp-le excess = ground arith

clamp-eq-min : (excess : ℕ) → clamp excess ≡ min excess 32
clamp-eq-min excess = ground arith

-- While the base shifted by 32 fits 63 bits, no shift overflows.
shift_fits :
    (base excess : ℕ)
    → 0 < base
    → base * 2 ^ 32 < 2 ^ 63
    → (0 < base * 2 ^ clamp excess) × (base * 2 ^ clamp excess < 2 ^ 63)
shift_fits base excess pos fits =
    shift_fits_lem base (2 ^ clamp excess) pos fits (one-le-pow (clamp excess) 2 (omega arith))
      (pow-le-pow_right {n = 2} (omega arith) (clamp-le excess))
  where
    shift_fits_lem :
        (base p : ℕ)
        → 0 < base
        → base * 2 ^ 32 < 2 ^ 63
        → 1 ≤ p
        → p ≤ 2 ^ 32
        → (0 < base * p) × (base * p < 2 ^ 63)
    shift_fits_lem base p pos fits low high = grind arith

capped-exact :
    (max_backoff product : ℕ)
    → 0 < product
    → product < 2 ^ 63
    → capped max_backoff (product % 2 ^ 64) ≡ min product max_backoff
unfolding capped
capped-exact max_backoff product pos fits = ground arith

-- A positive base below 2^31 nanoseconds, about two seconds, is doubled with each failure past the
-- threshold, up to 32 times, and cut off at the maximum.
pub lockout_backoff-exact :
    (base max_backoff excess : ℕ)
    → 0 < base
    → base < 2 ^ 31
    → lockout_backoff base max_backoff excess ≡ min (base * 2 ^ min excess 32) max_backoff
unfolding lockout_backoff capped
lockout_backoff-exact base max_backoff excess pos fits =
    let (some_time, no_overflow) = shift_fits base excess pos (omega arith) in
    capped-exact max_backoff (base * 2 ^ clamp excess) some_time no_overflow
    ∙ ap (λ k. min (base * 2 ^ k) max_backoff) (clamp-eq-min excess)

shift_wraps : (k : ℕ) → k < 2 ^ 31 → (2 ^ 32 + k) * 2 ^ 32 % 2 ^ 64 ≡ k * 2 ^ 32
shift_wraps k small = omega arith

clamp_many :
    (excess k : ℕ)
    → 32 ≤ excess
    → (2 ^ 32 + k) * 2 ^ clamp excess % 2 ^ 64 ≡ (2 ^ 32 + k) * 2 ^ 32 % 2 ^ 64
clamp_many excess k many = ap (λ c. (2 ^ 32 + k) * 2 ^ c % 2 ^ 64) (clamp-eq excess many)
  where
    clamp-eq : (excess : ℕ) → 32 ≤ excess → clamp excess ≡ 32
    clamp-eq excess many = ground arith

capped_small :
    (max_backoff k : ℕ)
    → 0 < k
    → k < 2 ^ 31
    → k * 2 ^ 32 < max_backoff
    → capped max_backoff (k * 2 ^ 32) ≡ k * 2 ^ 32
unfolding capped
capped_small max_backoff k pos small room = ground arith

-- A base of k nanoseconds more than 2^32 overflows the 64-bit duration to a small positive number:
-- with a maximum above k * 2^32, from the 32nd failure past the threshold on the lockout lasts
-- k * 2^32 nanoseconds and so less than the maximum.
pub lockout_backoff-wraps :
    (k max_backoff excess : ℕ)
    → 0 < k
    → k < 2 ^ 31
    → k * 2 ^ 32 < max_backoff
    → 32 ≤ excess
    → (lockout_backoff (2 ^ 32 + k) max_backoff excess ≡ k * 2 ^ 32)
      × (lockout_backoff (2 ^ 32 + k) max_backoff excess < max_backoff)
unfolding lockout_backoff capped
lockout_backoff-wraps k max_backoff excess pos small room many =
    let wrapped =
      ap (capped max_backoff) (clamp_many excess k many ∙ shift_wraps k small)
      ∙ capped_small max_backoff k pos small room in
    (wrapped, rw wrapped room)
