-- ===== src/Recovery.antt =====
-- Package recovery: recovery/recovery.go and the Store of recovery/store.go. Base32 and SHA-256 are
-- code outside the repository: a service takes them as fields. A character is a byte of ASCII.
pub mod Canonical
pub mod SingleUse
use sulis.Base.{
  ℕ, zero, suc, ◌+◌, ◌-◌, Bool, true, false, ◌&&◌, ◌||◌, Option, none, some, List, [], ◌∷◌, ◌++◌,
  ltb, leb, ◌==◌, if◌then◌else◌, map,
}
use sulis.Base.Text.{Text, codes, is_space, to_lower}
use sulis.Error.{Error, Result, ok, err, errors_is, code_not_found, code_invalid, code_rate_limited}
use sulis.Exec.{Exec, pure, throw, fail, attempt, total, ◌>>=◌, ◌>>◌}
use sulis.Service.{Limiter}

abbrev pub upper_byte : ℕ → ℕ
upper_byte c = if leb 97 c && leb c 122 then c - 32 else c

abbrev pub is_filler : ℕ → Bool
is_filler c = c == 45 || is_space c

unfoldable pub canonical : Text → Text
canonical [] = []
canonical (c ∷ code) =
    let rest = canonical code in if is_filler c then rest else upper_byte c ∷ rest

-- a code of which `n` characters still belong to the group that was begun
unfoldable pub format_from : ℕ → Text → Text
format_from n [] = []
format_from zero (c ∷ code) = 45 ∷ c ∷ format_from 3 code
format_from (suc n) (c ∷ code) = c ∷ format_from n code

unfoldable pub format_code : Text → Text
unfolding format_from
format_code s = format_from 4 s

pub record RecoveryStore (W : Type 0) : Type 0 where
  pub replace_codes : ℕ → List Text → Exec W Unit
  pub consume_code : ℕ → Text → Exec W ℕ
  pub count_codes : ℕ → Exec W ℕ
  pub delete_codes : ℕ → Exec W Unit

pub data CodeEvent : Type 0 where
  code_consumed : ℕ → CodeEvent
  code_rejected codes_exhausted rate_limited : CodeEvent

pub record RecoveryService (W : Type 0) : Type 0 where
  pub store : RecoveryStore W
  pub count : ℕ
  pub limiter : Option (Limiter W)
  -- the event, for this user
  pub event_sink : Option (CodeEvent → ℕ → W → W)
  -- base32, without padding, of ten bytes of rand.Read
  pub random_base32 : Exec W Text
  pub sha256_hex : Text → Text

module _ {W : Type 0} (s : RecoveryService W) where
  unfoldable pub hash_code : Text → Text
  unfolding canonical
  hash_code code = s.sha256_hex (canonical code)

  unfoldable pub emit : CodeEvent → ℕ → Exec W Unit
  emit e user_id = elim s.event_sink [
    | none ↦ pure tt
    | some sink ↦ total λ w. (tt, sink e user_id w)
  ]

  -- the key stands for "recovery:" and the user's id
  unfoldable pub allow : ℕ → Exec W Unit
  allow user_id = elim s.limiter [
    | none ↦ pure tt
    | some limiter ↦ do
      answer ← attempt (limiter.allow (codes "recovery:" ++ (user_id ∷ [])))
      elim answer [ ok _ ↦ pure tt | err _ ↦ fail code_rate_limited ]
  ]

  unfoldable pub generate_code : Exec W Text
  unfolding format_code
  generate_code = do encoded ← s.random_base32; pure (format_code (to_lower encoded))

  unfoldable pub generate_codes : ℕ → Exec W (List Text)
  unfolding generate_code
  generate_codes zero = pure []
  generate_codes (suc n) = do code ← generate_code; rest ← generate_codes n; pure (code ∷ rest)

  unfoldable pub generate : ℕ → Exec W (List Text)
  unfolding generate_codes hash_code
  generate user_id = do
    made ← generate_codes s.count
    s.store.replace_codes user_id (map hash_code made)
    pure made

  unfoldable pub consume : ℕ → Text → Exec W ℕ
  consume user_id code = do
    allowed ← attempt (allow user_id)
    elim allowed [
      | err e ↦ do emit rate_limited user_id; throw e
      | ok _ ↦ do
        consumed ← attempt (s.store.consume_code user_id (hash_code code))
        elim consumed [
          | err e ↦
              if errors_is e code_not_found
              then (do emit code_rejected user_id; fail code_invalid)
              else throw e
          | ok remaining ↦ do
            emit (code_consumed remaining) user_id
            if remaining == 0 then emit codes_exhausted user_id else pure tt
            pure remaining
        ]
    ]

  unfoldable pub remaining : ℕ → Exec W ℕ
  remaining user_id = s.store.count_codes user_id

  unfoldable pub disable : ℕ → Exec W Unit
  disable user_id = s.store.delete_codes user_id
