-- ===== src/Base/Base64.antt =====
-- Package encoding/base64, StdEncoding and RawStdEncoding: decoding skips the line ends and ignores the
-- bits that are left over, as it does where it is not strict.
pub mod RoundTrip
use Prim.Native.Nat.{ℕ, suc, ◌+◌, ◌-◌, ◌*◌, ◌/◌, ◌%◌, ◌<◌, ◌≤◌}
use mathlib.Core.Path.{◌≡◌, refl, ap, ◌∙◌}
use mathlib.Core.Logic.{◌≢◌}
use mathlib.Core.Bool.{Bool, true, false, ◌&&◌, ◌||◌}
use mathlib.Core.Option.{Option, none, some}
use mathlib.Core.List.{List, [], ◌∷◌, ◌++◌, map}
use native.Mathlib.Omega.{arith}
use sulis.Base.Tests.{leb, ltb, ◌==◌, if◌then◌else◌}
use sulis.Base.Lists.{All}
use sulis.Base.Text.{Text, is_empty}

-- the byte of the alphabet that stands for six bits
unfoldable pub symbol : ℕ → ℕ
symbol n =
    if ltb n 26
    then 65 + n
    else if ltb n 52
    then 71 + n
    else if ltb n 62
    then n - 4
    else if n == 62
    then 43
    else 47

unfoldable pub sextet : ℕ → Option ℕ
sextet c =
    if leb 65 c && leb c 90
    then some (c - 65)
    else if leb 97 c && leb c 122
    then some (c - 71)
    else if leb 48 c && leb c 57
    then some (c + 4)
    else if c == 43
    then some 62
    else if c == 47
    then some 63
    else none

-- bytes as groups of six bits
unfoldable pub spread : Text → List ℕ
spread [] = []
spread (a ∷ []) = (a / 4) ∷ ((a % 4) * 16) ∷ []
spread (a ∷ b ∷ []) = (a / 4) ∷ ((a % 4) * 16 + b / 16) ∷ ((b % 16) * 4) ∷ []
spread (a ∷ b ∷ c ∷ rest) =
    (a / 4) ∷ ((a % 4) * 16 + b / 16) ∷ ((b % 16) * 4 + c / 64) ∷ (c % 64) ∷ spread rest

-- groups of six bits as bytes; one group alone is too few
unfoldable pub pack : List ℕ → Option Text
pack [] = some []
pack (x ∷ []) = none
pack (x ∷ y ∷ []) = some ((x * 4 + y / 16) ∷ [])
pack (x ∷ y ∷ z ∷ []) = some ((x * 4 + y / 16) ∷ ((y % 16) * 16 + z / 4) ∷ [])
pack (x ∷ y ∷ z ∷ t ∷ rest) = elim (pack rest) [
  | none ↦ none
  | some bytes ↦ some ((x * 4 + y / 16) ∷ ((y % 16) * 16 + z / 4) ∷ ((z % 4) * 64 + t) ∷ bytes)
]

unfoldable pub sextets : Text → Option (List ℕ)
unfolding sextet
sextets [] = some []
sextets (c ∷ s) = elim (sextet c) [
  | none ↦ none
  | some n ↦ elim (sextets s) [ none ↦ none | some ns ↦ some (n ∷ ns) ]
]

unfoldable pub drop_line_ends : Text → Text
drop_line_ends [] = []
drop_line_ends (c ∷ s) =
    let rest = drop_line_ends s in if c == 10 || c == 13 then rest else c ∷ rest

-- RawStdEncoding
unfoldable pub encode_raw : Text → Text
unfolding symbol
encode_raw bytes = map symbol (spread bytes)

abbrev pub unpack : Option (List ℕ) → Option Text
unpack none = none
unpack (some groups) = pack groups

unfoldable pub decode_raw : Text → Option Text
unfolding sextets
decode_raw s = unpack (sextets (drop_line_ends s))

-- StdEncoding: '=' up to a multiple of four
unfoldable pub pad : Text → Text
pad [] = []
pad (x ∷ []) = x ∷ 61 ∷ 61 ∷ 61 ∷ []
pad (x ∷ y ∷ []) = x ∷ y ∷ 61 ∷ 61 ∷ []
pad (x ∷ y ∷ z ∷ []) = x ∷ y ∷ z ∷ 61 ∷ []
pad (x ∷ y ∷ z ∷ t ∷ rest) = x ∷ y ∷ z ∷ t ∷ pad rest

unfoldable pub strip : Text → Option Text
strip [] = some []
strip (x ∷ []) = none
strip (x ∷ y ∷ []) = none
strip (x ∷ y ∷ z ∷ []) = none
strip (x ∷ y ∷ z ∷ t ∷ rest) =
    let stripped = strip rest in
    if z == 61
    then if t == 61 && is_empty rest then some (x ∷ y ∷ []) else none
    else if t == 61
    then if is_empty rest then some (x ∷ y ∷ z ∷ []) else none
    else elim stripped [ none ↦ none | some s ↦ some (x ∷ y ∷ z ∷ t ∷ s) ]

unfoldable pub encode : Text → Text
unfolding pad encode_raw
encode bytes = pad (encode_raw bytes)

abbrev pub unpack_stripped : Option Text → Option Text
unpack_stripped none = none
unpack_stripped (some t) = unpack (sextets t)

unfoldable pub decode : Text → Option Text
unfolding strip sextets
decode s = unpack_stripped (strip (drop_line_ends s))
