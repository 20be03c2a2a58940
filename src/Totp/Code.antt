-- ===== src/Totp/Code.antt =====
-- counterAt, generateCode and matchCode of totp/totp.go. A time is a number of nanoseconds since the
-- Unix epoch, or `none` before it.
use sulis.Base.{
  ℕ, zero, suc, ◌+◌, ◌*◌, ◌/◌, ◌%◌, ◌^◌, ◌-◌, Option, none, some, List, [], ◌∷◌, ◌++◌, ltb, leb,
  if◌then◌else◌, map, ◌&&◌,
}
use sulis.Base.Text.{Text, text_eq}
use sulis.Totp.{TotpService}

abbrev nanoseconds : ℕ
nanoseconds = 1000000000

unfoldable pub counter_at : Option ℕ → ℕ → Option ℕ
counter_at none period = none
counter_at (some t) period = some (t / nanoseconds / period)

abbrev upper_byte : ℕ → ℕ
upper_byte c = if leb 97 c && leb c 122 then c - 32 else c

-- binary.BigEndian.PutUint64 on so many bytes
unfoldable pub put_bytes : ℕ → ℕ → List ℕ
put_bytes zero n = []
put_bytes (suc k) n = put_bytes k (n / 256) ++ ((n % 256) ∷ [])

-- binary.BigEndian.Uint32 of sum[offset:offset+4]; a MAC of package hmac has at least 20 bytes
unfoldable pub word_at : ℕ → List ℕ → ℕ
word_at zero (a ∷ b ∷ c ∷ d ∷ rest) = a * 2 ^ 24 + b * 2 ^ 16 + c * 2 ^ 8 + d
word_at zero [] = 0
word_at zero (a ∷ []) = 0
word_at zero (a ∷ b ∷ []) = 0
word_at zero (a ∷ b ∷ c ∷ []) = 0
word_at (suc k) [] = 0
word_at (suc k) (x ∷ xs) = word_at k xs

unfoldable pub last_byte : List ℕ → ℕ
last_byte [] = 0
last_byte (x ∷ []) = x
last_byte (x ∷ y ∷ rest) = last_byte (y ∷ rest)

-- fmt.Sprintf of a number below 10 ^ width, padded with zeros
unfoldable pub padded : ℕ → ℕ → Text
padded zero n = []
padded (suc k) n = padded k (n / 10) ++ ((48 + n % 10) ∷ [])

module _ {W : Type 0} (s : TotpService W) where
  -- the code of a time step: the dynamic truncation of the MAC
  unfoldable pub code_for : Text → ℕ → Option Text
  unfolding word_at
  code_for secret counter = elim (s.decode_base32 (map upper_byte secret)) [
    | none ↦ none
    | some key ↦
        let sum = s.hmac key (put_bytes 8 (counter % 2 ^ 64)) in
        some (padded s.cfg.digits (word_at (last_byte sum % 16) sum % 2 ^ 31 % (10 ^ s.cfg.digits)))
  ]

  unfoldable pub generate_code : Text → Option ℕ → Option Text
  unfolding counter_at
  generate_code secret time = elim (counter_at time s.cfg.period) [
    | none ↦ none
    | some counter ↦ code_for secret counter
  ]

  -- the time that is `j` periods after the one Skew periods before `t`
  unfoldable pub shifted : ℕ → ℕ → Option ℕ
  shifted t j =
      let late = t + j * s.cfg.period * nanoseconds in
      let back = s.cfg.skew * s.cfg.period * nanoseconds in
      if ltb late back then none else some (late - back)

  -- what is left of the loop of matchCode: `n` windows, from the j-th on
  unfoldable pub match_from : Text → Text → ℕ → ℕ → ℕ → Option ℕ
  unfolding shifted generate_code counter_at
  match_from secret code t zero j = none
  match_from secret code t (suc n) j =
      let rest = match_from secret code t n (suc j) in
      elim (generate_code secret (shifted t j)) [
        | none ↦ rest
        | some expected ↦
            if text_eq code expected
            then elim (counter_at (shifted t j) s.cfg.period) [
              | none ↦ rest
              | some counter ↦ some counter
            ]
            else rest
      ]

  unfoldable pub match_code : Text → Text → ℕ → Option ℕ
  unfolding match_from
  match_code secret code t = match_from secret code t (suc (2 * s.cfg.skew)) 0
