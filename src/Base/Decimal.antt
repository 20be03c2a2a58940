-- ===== src/Base/Decimal.antt =====
-- What the source uses of package fmt on numbers: %d as Sprintf prints it and as Sscanf reads it. Of
-- the spaces that Sscanf skips those of ASCII are modelled.
use Prim.Native.Nat.{ℕ, zero, suc, ◌+◌, ◌-◌, ◌*◌, ◌/◌, ◌%◌, ◌^◌, ◌<◌}
use mathlib.Core.Path.{◌≡◌, refl}
use mathlib.Core.Bool.{Bool, true, false, ◌&&◌, ◌||◌}
use mathlib.Core.Option.{Option, none, some}
use mathlib.Core.List.{[], ◌∷◌, ◌++◌}
use native.Mathlib.Omega.{arith}
use sulis.Base.Tests.{leb, ltb, ltb→lt, ◌==◌, if◌then◌else◌}
use sulis.Base.Lists.{All}
use sulis.Base.Chain.{◌>>=◌}
use sulis.Base.Text.{Text}

-- the digits of a number of at most so many digits, before the rest of the text
unfoldable pub print_before : ℕ → ℕ → Text → Text
print_before zero n out = out
print_before (suc places) n out =
    let high = print_before places (n / 10) ((48 + n % 10) ∷ out) in
    if ltb n 10 then (48 + n) ∷ out else high

-- strconv.FormatUint for 64 bits: 20 digits are enough
unfoldable pub print_decimal : ℕ → Text
print_decimal n = print_before 20 n []

abbrev pub is_digit : ℕ → Bool
is_digit c = leb 48 c && leb c 57

-- the digits at the front, behind those that make up `n`, and what follows them
unfoldable pub read_digits : ℕ → Text → ℕ × Text
read_digits n [] = (n, [])
read_digits n (c ∷ s) =
    let all = read_digits (n * 10 + (c - 48)) s in if is_digit c then all else (n, c ∷ s)

-- SkipSpace before a verb: a newline is an error
unfoldable pub skip_spaces : Text → Option Text
skip_spaces [] = some []
skip_spaces (c ∷ s) =
    let rest = skip_spaces s in
    if c == 10 then none else if c == 32 || (leb 9 c && leb c 13) then rest else some (c ∷ s)

abbrev pub starts_with_digit : Text → Bool
starts_with_digit [] = false
starts_with_digit (c ∷ s) = is_digit c

-- scanInt for %d into 64 bits: whether there is a minus sign, and the digits
unfoldable pub scan_magnitude : Bool → ℕ → Text → Option (Bool × ℕ)
scan_magnitude negative limit s =
    let (n, rest) = read_digits 0 s in
    if starts_with_digit s && ltb n limit then some (negative, n) else none

abbrev pub scan_after_sign : Text → Option (Bool × ℕ)
scan_after_sign [] = none
scan_after_sign (c ∷ s) =
    if c == b'+'
    then scan_magnitude false (2 ^ 63) s
    else if c == b'-'
    then scan_magnitude true (2 ^ 63 + 1) s
    else scan_magnitude false (2 ^ 63) (c ∷ s)

unfoldable pub scan_signed : Text → Option (Bool × ℕ)
unfolding skip_spaces scan_magnitude
scan_signed s = do t ← skip_spaces s; scan_after_sign t

-- scanUint for %d into `limit` values, and what follows
unfoldable pub scan_number : ℕ → Text → Option (ℕ × Text)
scan_number limit s = do
  t ← skip_spaces s
  let (n, rest) = read_digits 0 t
  if starts_with_digit t && ltb n limit then some (n, rest) else none

abbrev pub pow10 : ℕ → ℕ
pow10 zero = 1
pow10 (suc n) = 10 * pow10 n

-- What is printed is read back, and the reading stops where the printing did.
read_digits-print_before :
    (places n : ℕ) (out : Text)
    → n < pow10 places
    → 0 < places
    → read_digits 0 (print_before places n out) ≡ read_digits n out
unfolding read_digits print_before
read_digits-print_before zero n out small some_place = absurd (omega arith)
read_digits-print_before (suc zero) n out small some_place = ground arith
read_digits-print_before (suc (suc places)) n out small some_place = ground (
  arith,
  read_digits-print_before (suc places) (n / 10) ((48 + n % 10) ∷ out) (omega arith) (omega arith),
)

print_before-append :
    (places n : ℕ) (out rest : Text)
    → print_before places n out ++ rest ≡ print_before places n (out ++ rest)
unfolding print_before
print_before-append zero n out rest = refl
print_before-append (suc places) n out rest =
    ground (arith, print_before-append places (n / 10) ((48 + n % 10) ∷ out) rest)

All-branch :
    (P : ℕ → Type 0) (test : Bool) (s t : Text)
    → (test ≡ true → All P s)
    → (test ≡ false → All P t)
    → All P (if test then s else t)
All-branch P true s t first second = first refl
All-branch P false s t first second = second refl

pub print_before-All :
    (P : ℕ → Type 0) (places n : ℕ) (out : Text)
    → ((d : ℕ) → d < 10 → P (48 + d))
    → All P out
    → All P (print_before places n out)
unfolding print_before
print_before-All P zero n out digit rest = rest
print_before-All P (suc places) n out digit rest =
    All-branch P (ltb n 10) _ _ (λ h. (digit n (ltb→lt n 10 h), rest))
      (λ h.
        print_before-All P places (n / 10) ((48 + n % 10) ∷ out) digit
          (digit (n % 10) (omega arith), rest))

-- The first byte that is printed is a digit.
starts_with_digit-print_before :
    (places n : ℕ) (out : Text)
    → 0 < places
    → n < pow10 places
    → starts_with_digit (print_before places n out) ≡ true
unfolding print_before
starts_with_digit-print_before zero n out h small = absurd (omega arith)
starts_with_digit-print_before (suc zero) n out h small = ground arith
starts_with_digit-print_before (suc (suc places)) n out h small = ground (
  arith,
  starts_with_digit-print_before (suc places) (n / 10) ((48 + n % 10) ∷ out) (omega arith)
      (omega arith),
)

skip_spaces-digit : (s : Text) → starts_with_digit s ≡ true → skip_spaces s ≡ some s
unfolding skip_spaces
skip_spaces-digit [] h = cc
skip_spaces-digit (c ∷ s) h = ground arith

read_digits-stop : (n : ℕ) (s : Text) → starts_with_digit s ≡ false → read_digits n s ≡ (n, s)
unfolding read_digits
read_digits-stop n [] h = refl
read_digits-stop n (c ∷ s) h = ground arith

-- A number below the limit that is printed before something else than a digit is read back.
pub scan_number-print_decimal :
    (limit n : ℕ) (rest : Text)
    → n < limit
    → n < pow10 20
    → starts_with_digit rest ≡ false
    → scan_number limit (print_decimal n ++ rest) ≡ some (n, rest)
unfolding scan_number print_decimal
scan_number-print_decimal limit n rest below small stop = rw (print_before-append 20 n [] rest) (
    let digit = starts_with_digit-print_before 20 n rest (omega arith) small in
    ground (
      arith,
      digit,
      skip_spaces-digit (print_before 20 n rest) digit,
      read_digits-print_before 20 n rest small (omega arith),
      read_digits-stop n rest stop,
    ))
