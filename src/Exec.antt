-- ===== src/Exec.antt =====
-- Go functions that read and write a world `W` and return `(value, error)`: what was written before
-- an error stays written.
use sulis.Base.{◌≡◌, refl, Bool, if◌then◌else◌}
use sulis.Error.{Error, Sentinel, Result, ok, err, sentinel}

abbrev pub Exec {ℓ} : Type ℓ → Type ℓ → Type ℓ
Exec W A = W → Result A × W

module _ {ℓ} {W A : Type ℓ} where
  abbrev pub pure : A → Exec W A
  pure a w = (ok a, w)

  -- return nil, err
  abbrev pub throw : Error → Exec W A
  throw e w = (err e, w)

  -- return nil, ErrX
  abbrev pub fail : Sentinel → Exec W A
  fail e = throw (sentinel e)

  abbrev pub lift : Result A → Exec W A
  lift r w = (r, w)

  -- a call that cannot fail
  abbrev pub total : (W → A × W) → Exec W A
  total f w = let (a, w') = f w in (ok a, w')

  -- the call with its error as a value: v, err := m()
  abbrev pub attempt : Exec W A → Exec W (Result A)
  attempt m w = let (r, w') = m w in (ok r, w')

module _ {ℓ} {W A B : Type ℓ} where
  abbrev pub continue : Result A → (A → Exec W B) → Exec W B
  continue (ok a) f w = f a w
  continue (err e) f w = (err e, w)

  infixl 5 ◌>>=◌ ◌>>◌
  abbrev pub ◌>>=◌ : Exec W A → (A → Exec W B) → Exec W B
  ◌>>=◌ m f w = let (r, w') = m w in continue r f w'

  abbrev pub ◌>>◌ : Exec W A → Exec W B → Exec W B
  m >> n = m >>= λ _. n

  -- A sequence that returned a value was carried out to its end.
  pub >>=-eq-ok :
      (m : Exec W A) (f : A → Exec W B) (w : W) {b : B} {u : W}
      → (m >>= f) w ≡ (ok b, u)
      → (a : A) × (v : W) × (m w ≡ (ok a, v)) × (f a v ≡ (ok b, u))
  >>=-eq-ok m f w h = continue-eq-ok (m w).0 (m w).1 h
    where
      continue-eq-ok :
          (r : Result A) (v : W) {b : B} {u : W}
          → continue r f v ≡ (ok b, u)
          → (a : A) × (v' : W) × (◌≡◌ {A = Result A × W} (r, v) (ok a, v')) × (f a v' ≡ (ok b, u))
      continue-eq-ok (ok a) v h = (a, v, refl, h)
      continue-eq-ok (err e) v h = cc

module _ {ℓ} {W : Type ℓ} where
  -- if test { return nil, ErrX }
  abbrev pub refuse_if : Bool → Sentinel → Exec W (Unit {ℓ})
  refuse_if b e w = if b then fail e w else pure tt w
