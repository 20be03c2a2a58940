-- ===== src/Base/Dict.antt =====
-- Go maps with string keys, as association lists.
use mathlib.Core.Path.{◌≡◌, refl}
use mathlib.Core.Option.{Option, none, some}
use mathlib.Core.List.{List, [], ◌∷◌}
use native.Mathlib.Omega.{arith}
use sulis.Base.Tests.{if◌then◌else◌}
use sulis.Base.Text.{Text, text_eq, text_eq_iff}

abbrev pub Dict {ℓ} : Type ℓ → Type ℓ
Dict V = List (Text × V)

module _ {ℓ} {V : Type ℓ} where
  -- v, ok := m[key]
  unfoldable pub get : Text → Dict V → Option V
  get key [] = none
  get key ((name, v) ∷ rest) = if text_eq name key then some v else get key rest

  -- m[key] = v
  unfoldable pub put : Text → V → Dict V → Dict V
  put key v [] = (key, v) ∷ []
  put key v ((name, old) ∷ rest) =
      if text_eq name key then (key, v) ∷ rest else (name, old) ∷ put key v rest

  -- delete(m, key)
  unfoldable pub remove : Text → Dict V → Dict V
  remove key [] = []
  remove key ((name, v) ∷ rest) =
      let others = remove key rest in if text_eq name key then others else (name, v) ∷ others

  pub get-put :
      (key name : Text) (new : V) (dict : Dict V)
      → get name (put key new dict) ≡ (if text_eq key name then some new else get name dict)
  unfolding get put
  get-put key name new [] = refl
  get-put key name new ((other, old) ∷ rest) = ground (
    arith,
    text_eq_iff other key,
    text_eq_iff other name,
    text_eq_iff key name,
    get-put key name new rest,
  )

  pub get-remove :
      (key name : Text) (dict : Dict V)
      → get name (remove key dict) ≡ (if text_eq key name then none else get name dict)
  unfolding get remove
  get-remove key name [] = ground arith
  get-remove key name ((other, old) ∷ rest) = ground (
    arith,
    text_eq_iff other key,
    text_eq_iff other name,
    text_eq_iff key name,
    get-remove key name rest,
  )
