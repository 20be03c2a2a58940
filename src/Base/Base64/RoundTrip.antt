-- ===== src/Base/Base64/RoundTrip.antt =====
-- Decoding what was encoded, for both encodings.
use Prim.Native.Nat.{ℕ, ◌<◌}
use mathlib.Core.Path.{◌≡◌, refl, ap, ◌∙◌}
use mathlib.Core.Logic.{◌≢◌}
use mathlib.Core.Option.{some}
use mathlib.Core.List.{List, [], ◌∷◌, map}
use native.Mathlib.Omega.{arith}
use sulis.Base.Lists.{All}
use sulis.Base.Text.{Text}
use sulis.Base.Base64.{
  symbol, sextet, spread, pack, sextets, drop_line_ends, encode_raw, decode_raw, unpack, pad, strip,
  encode, decode, unpack_stripped,
}

abbrev pub IsBytes : Text → Type 0
IsBytes s = All (λ c. c < 256) s

-- not a line end, a '$' or a '='
abbrev pub IsSymbol : ℕ → Type 0
IsSymbol c = (10 ≢ c) × (13 ≢ c) × (c ≢ 36) × (c ≢ 61)

symbol-IsSymbol : (n : ℕ) → n < 64 → IsSymbol (symbol n)
unfolding symbol
symbol-IsSymbol n small = (ground arith, ground arith, ground arith, ground arith)

sextet-symbol : (n : ℕ) → n < 64 → sextet (symbol n) ≡ some n
unfolding sextet symbol
sextet-symbol n small = ground arith

sextets-symbols : (ns : List ℕ) → All (λ n. n < 64) ns → sextets (map symbol ns) ≡ some ns
unfolding sextets
sextets-symbols [] small = refl
sextets-symbols (n ∷ ns) small = ground (arith, sextet-symbol n small.0, sextets-symbols ns small.1)

symbols-IsSymbol : (ns : List ℕ) → All (λ n. n < 64) ns → All IsSymbol (map symbol ns)
symbols-IsSymbol [] small = tt
symbols-IsSymbol (n ∷ ns) small = (symbol-IsSymbol n small.0, symbols-IsSymbol ns small.1)

spread-small : (s : Text) → IsBytes s → All (λ n. n < 64) (spread s)
unfolding spread
spread-small [] b = tt
spread-small (x ∷ []) b = (omega arith, (omega arith, tt))
spread-small (x ∷ y ∷ []) b = (omega arith, (omega arith, (omega arith, tt)))
spread-small (x ∷ y ∷ z ∷ s) (bx, (by, (bz, bs))) =
    (omega arith, (omega arith, (omega arith, (omega arith, spread-small s bs))))

pack-spread : (s : Text) → IsBytes s → pack (spread s) ≡ some s
unfolding pack spread
pack-spread [] b = refl
pack-spread (x ∷ []) b = ground arith
pack-spread (x ∷ y ∷ []) b = ground arith
pack-spread (x ∷ y ∷ z ∷ s) (bx, (by, (bz, bs))) = ground (arith, pack-spread s bs)

drop_line_ends-symbols : (s : Text) → All IsSymbol s → drop_line_ends s ≡ s
unfolding drop_line_ends
drop_line_ends-symbols [] a = refl
drop_line_ends-symbols (c ∷ s) a = ground (arith, drop_line_ends-symbols s a.1)

pub encode_raw-IsSymbol : (s : Text) → IsBytes s → All IsSymbol (encode_raw s)
unfolding encode_raw
encode_raw-IsSymbol s b = symbols-IsSymbol (spread s) (spread-small s b)

unpack-sextets : (s : Text) → IsBytes s → unpack (sextets (encode_raw s)) ≡ some s
unfolding encode_raw
unpack-sextets s b = ap unpack (sextets-symbols (spread s) (spread-small s b)) ∙ pack-spread s b

pub decode_raw-encode_raw : (s : Text) → IsBytes s → decode_raw (encode_raw s) ≡ some s
unfolding decode_raw
decode_raw-encode_raw s b =
    rw (drop_line_ends-symbols (encode_raw s) (encode_raw-IsSymbol s b)) (unpack-sextets s b)

-- The groups of some bytes never leave one group alone at the end.
IsWhole : List ℕ → Type 0
IsWhole [] = Unit
IsWhole (x ∷ []) = ⊥
IsWhole (x ∷ y ∷ []) = Unit
IsWhole (x ∷ y ∷ z ∷ []) = Unit
IsWhole (x ∷ y ∷ z ∷ t ∷ rest) = IsWhole rest

encode_raw-IsWhole : (s : Text) → IsWhole (encode_raw s)
unfolding encode_raw spread IsWhole
encode_raw-IsWhole [] = tt
encode_raw-IsWhole (x ∷ []) = tt
encode_raw-IsWhole (x ∷ y ∷ []) = tt
encode_raw-IsWhole (x ∷ y ∷ z ∷ s) = encode_raw-IsWhole s

strip-pad : (s : Text) → IsWhole s → All IsSymbol s → strip (pad s) ≡ some s
unfolding strip pad IsWhole
strip-pad [] w a = refl
strip-pad (x ∷ []) w a = absurd w
strip-pad (x ∷ y ∷ []) w a = refl
strip-pad (x ∷ y ∷ z ∷ []) w (ax, (ay, (az, _))) = ground arith
strip-pad (x ∷ y ∷ z ∷ t ∷ s) w (ax, (ay, (az, (at, others)))) =
    ground (arith, strip-pad s w others)

drop_line_ends-pad : (s : Text) → All IsSymbol s → drop_line_ends (pad s) ≡ pad s
unfolding drop_line_ends pad
drop_line_ends-pad [] a = refl
drop_line_ends-pad (x ∷ []) a = ground arith
drop_line_ends-pad (x ∷ y ∷ []) a = ground arith
drop_line_ends-pad (x ∷ y ∷ z ∷ []) a = ground arith
drop_line_ends-pad (x ∷ y ∷ z ∷ t ∷ s) (ax, (ay, (az, (at, others)))) =
    ground (arith, drop_line_ends-pad s others)

pub decode-encode : (s : Text) → IsBytes s → decode (encode s) ≡ some s
unfolding decode encode
decode-encode s b =
    let symbols = encode_raw-IsSymbol s b in
    ap (λ t. unpack_stripped (strip t)) (drop_line_ends-pad (encode_raw s) symbols)
    ∙ (ap unpack_stripped (strip-pad (encode_raw s) (encode_raw-IsWhole s) symbols)
        ∙ unpack-sextets s b)
