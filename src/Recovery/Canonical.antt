-- ===== src/Recovery/Canonical.antt =====
-- The canonical form of recovery/recovery.go forgets case, spaces and grouping.
use sulis.Base.{ℕ, zero, suc, ◌≡◌, ◌∙◌, refl, [], ◌∷◌, arith}
use sulis.Base.Text.{Text, is_space, to_lower, lower_byte}
use sulis.Recovery.{canonical, format_from, format_code}

-- To bring a code into its canonical form twice is to do it once.
canonical_idem : (code : Text) → canonical (canonical code) ≡ canonical code
unfolding canonical is_space
canonical_idem [] = refl
canonical_idem (c ∷ code) = ground (arith, canonical_idem code)

canonical-format_from : (n : ℕ) (code : Text) → canonical (format_from n code) ≡ canonical code
unfolding canonical format_from is_space
canonical-format_from n [] = refl
canonical-format_from zero (c ∷ code) = ground (arith, canonical-format_from 3 code)
canonical-format_from (suc n) (c ∷ code) = ground (arith, canonical-format_from n code)

canonical-to_lower : (code : Text) → canonical (to_lower code) ≡ canonical code
unfolding canonical to_lower lower_byte is_space
canonical-to_lower [] = refl
canonical-to_lower (c ∷ code) = ground (arith, canonical-to_lower code)

-- The code as it is shown, in lower case and in groups, has the canonical form of the code that was
-- drawn: the hash that Generate stores is the one that Consume computes, however the user groups it.
pub canonical-format_code : (code : Text) → canonical (format_code (to_lower code)) ≡ canonical code
unfolding format_code
canonical-format_code code = canonical-format_from 4 (to_lower code) ∙ canonical-to_lower code
