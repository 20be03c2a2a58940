-- ===== src/Error/Chain.antt =====
-- Go functions that return `(value, error)` and write nothing: the sequence of two steps, and the
-- tests that end one.
use sulis.Base.{Bool, Option, none, some, if◌then◌else◌, ◌≡◌, refl}
use sulis.Error.{Error, Result, ok, err}

module _ {ℓ κ} {A : Type ℓ} {B : Type κ} where
  infixl 5 ◌>>=◌ ◌>>◌
  abbrev pub ◌>>=◌ : Result A → (A → Result B) → Result B
  ok a >>= f = f a
  err e >>= f = err e

  abbrev pub ◌>>◌ : Result A → Result B → Result B
  r >> rest = r >>= λ _. rest

  -- A sequence that returned a value was carried out to its end.
  pub >>=-eq-ok :
      (r : Result A) (f : A → Result B) {b : B}
      → (r >>= f) ≡ ok b
      → (a : A) × (r ≡ ok a) × (f a ≡ ok b)
  >>=-eq-ok (ok a) f h = (a, refl, h)
  >>=-eq-ok (err e) f h = cc

-- if test { return nil, e }
abbrev pub refuse_if : Bool → Error → Result (Unit {0})
refuse_if b e = if b then err e else ok tt

-- a value, or the error where there is none
abbrev pub or_error {ℓ} : {A : Type ℓ} → Option A → Error → Result A
or_error none e = err e
or_error (some a) e = ok a
