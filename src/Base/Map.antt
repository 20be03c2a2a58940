-- ===== src/Base/Map.antt =====
-- Go maps with numeric keys, as association lists: the order of the list is the order of iteration,
-- which Go leaves open.
use Prim.Native.Nat.{ℕ}
use mathlib.Core.Path.{◌≡◌, refl}
use mathlib.Core.Bool.{Bool, true, false}
use mathlib.Core.Option.{Option, none, some}
use mathlib.Core.List.{List, [], ◌∷◌}
use native.Mathlib.Omega.{arith}
use sulis.Base.Tests.{◌==◌, if◌then◌else◌}

abbrev pub Map {ℓ} : Type ℓ → Type ℓ
Map V = List (ℕ × V)

module _ {ℓ} {V : Type ℓ} where
  -- v, ok := m[k]
  unfoldable pub lookup : ℕ → Map V → Option V
  lookup k [] = none
  lookup k ((j, v) ∷ m) = if j == k then some v else lookup k m

  -- m[k] = v
  unfoldable pub insert : ℕ → V → Map V → Map V
  insert k v [] = (k, v) ∷ []
  insert k v ((j, w) ∷ m) = if j == k then (k, v) ∷ m else (j, w) ∷ insert k v m

  -- delete(m, k) for each pair that the test selects
  unfoldable pub remove_if : (ℕ → V → Bool) → Map V → Map V
  remove_if p [] = []
  remove_if p ((j, v) ∷ m) = let rest = remove_if p m in if p j v then rest else (j, v) ∷ rest

  -- delete(m, k)
  unfoldable pub delete : ℕ → Map V → Map V
  delete k [] = []
  delete k ((j, v) ∷ m) = let rest = delete k m in if j == k then rest else (j, v) ∷ rest

  -- the first pair, in the order of iteration, that the test selects
  unfoldable pub find : (ℕ → V → Bool) → Map V → Option (ℕ × V)
  find p [] = none
  find p ((j, v) ∷ m) = let rest = find p m in if p j v then some (j, v) else rest

  -- the values that the test selects
  unfoldable pub select : (ℕ → V → Bool) → Map V → List V
  select p [] = []
  select p ((j, v) ∷ m) = let rest = select p m in if p j v then v ∷ rest else rest

  abbrev pub DistinctKeys : Map V → Type ℓ
  DistinctKeys [] = Unit
  DistinctKeys ((k, v) ∷ m) = (lookup k m ≡ none) × DistinctKeys m

  pub lookup-insert :
      (key j : ℕ) (new : V) (pairs : Map V)
      → lookup j (insert key new pairs) ≡ (if key == j then some new else lookup j pairs)
  unfolding lookup insert
  lookup-insert key j new [] = refl
  lookup-insert key j new ((other, old) ∷ rest) = ground (arith, lookup-insert key j new rest)

  pub lookup-delete :
      (k j : ℕ) (m : Map V) → lookup j (delete k m) ≡ (if k == j then none else lookup j m)
  unfolding lookup delete
  lookup-delete k j [] = ground arith
  lookup-delete k j ((i, w) ∷ m) = ground (arith, lookup-delete k j m)

  lookup-remove_if-none :
      (p : ℕ → V → Bool) (j : ℕ) (m : Map V) → lookup j m ≡ none → lookup j (remove_if p m) ≡ none
  unfolding lookup remove_if
  lookup-remove_if-none p j [] h = refl
  lookup-remove_if-none p j ((i, w) ∷ m) h = ground (arith, lookup-remove_if-none p j m)

  -- what a map holds at a key, unless the test selects it
  abbrev pub unless : (ℕ → V → Bool) → ℕ → Option V → Option V
  unless p j none = none
  unless p j (some v) = if p j v then none else some v

  pub lookup-remove_if :
      (p : ℕ → V → Bool) (j : ℕ) (m : Map V)
      → DistinctKeys m
      → lookup j (remove_if p m) ≡ unless p j (lookup j m)
  unfolding lookup remove_if
  lookup-remove_if p j [] d = refl
  lookup-remove_if p j ((i, w) ∷ m) d =
      ground (arith, lookup-remove_if p j m d.1, lookup-remove_if-none p i m d.0)

  pub insert-DistinctKeys :
      (k : ℕ) (v : V) (m : Map V) → DistinctKeys m → DistinctKeys (insert k v m)
  unfolding insert lookup
  insert-DistinctKeys k v [] d = (refl, tt)
  insert-DistinctKeys k v ((i, w) ∷ m) d =
      ground (arith, insert-DistinctKeys k v m d.1, lookup-insert k i v m)

  pub delete-DistinctKeys : (k : ℕ) (m : Map V) → DistinctKeys m → DistinctKeys (delete k m)
  unfolding delete
  delete-DistinctKeys k [] d = tt
  delete-DistinctKeys k ((i, w) ∷ m) d =
      ground (arith, delete-DistinctKeys k m d.1, lookup-delete k i m)

  pub remove_if-DistinctKeys :
      (p : ℕ → V → Bool) (m : Map V) → DistinctKeys m → DistinctKeys (remove_if p m)
  unfolding remove_if
  remove_if-DistinctKeys p [] d = tt
  remove_if-DistinctKeys p ((i, w) ∷ m) d =
      ground (arith, remove_if-DistinctKeys p m d.1, lookup-remove_if-none p i m d.0)

  pub find-none :
      (p : ℕ → V → Bool) (m : Map V) (j : ℕ) (v : V)
      → find p m ≡ none
      → lookup j m ≡ some v
      → p j v ≡ false
  unfolding find lookup
  find-none p [] j v h e = cc
  find-none p ((i, w) ∷ m) j v h e = ground (arith, find-none p m j v)

  pub find-some :
      (p : ℕ → V → Bool) (m : Map V) (j : ℕ) (v : V)
      → DistinctKeys m
      → find p m ≡ some (j, v)
      → (lookup j m ≡ some v) × (p j v ≡ true)
  unfolding find lookup
  find-some p [] j v d h = cc
  find-some p ((i, w) ∷ m) j v d h = ground (arith, find-some p m j v d.1)

  -- A value that still passes the test, written at the key that was found, is found again.
  pub find-insert :
      (p : ℕ → V → Bool) (m : Map V) (j : ℕ) (v v' : V)
      → DistinctKeys m
      → find p m ≡ some (j, v)
      → p j v' ≡ true
      → find p (insert j v' m) ≡ some (j, v')
  unfolding find insert
  find-insert p [] j v v' d h t = cc
  find-insert p ((i, w) ∷ m) j v v' d h t =
      ground (arith, find-insert p m j v v' d.1, find-some p m j v d.1)

  -- What the test selects is not found in what is left.
  pub find-remove_if :
      (p q : ℕ → V → Bool) (m : Map V) (j : ℕ) (v : V)
      → find q (remove_if p m) ≡ some (j, v)
      → p j v ≡ false
  unfolding find remove_if
  find-remove_if p q [] j v h = cc
  find-remove_if p q ((i, w) ∷ m) j v h = ground (arith, find-remove_if p q m j v)
