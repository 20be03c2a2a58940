-- ===== src/Memstore/Recovery.antt =====
-- memstore/recovery.go: the set of unused code hashes of each user.
use sulis.Base.{ℕ, Bool, false, ◌||◌, not, none, some, List, [], ◌∷◌, length, if◌then◌else◌}
use sulis.Base.Text.{Text, text_eq}
use sulis.Base.Map.{Map, lookup, insert, delete}
use sulis.Error.{code_not_found}
use sulis.Exec.{Exec, pure, fail}

unfoldable pub is_in : Text → List Text → Bool
is_in hash [] = false
is_in hash (x ∷ xs) = let rest = is_in hash xs in text_eq x hash || rest

-- set[h] = struct{}{}
unfoldable pub add : Text → List Text → List Text
unfolding is_in
add hash set = if is_in hash set then set else hash ∷ set

unfoldable pub set_of : List Text → List Text
unfolding add
set_of [] = []
set_of (hash ∷ hashes) = add hash (set_of hashes)

-- delete(set, hash)
unfoldable pub without : Text → List Text → List Text
without hash [] = []
without hash (x ∷ xs) = let rest = without hash xs in if text_eq x hash then rest else x ∷ rest

unfoldable pub replace_codes : ℕ → List Text → Exec (Map (List Text)) Unit
unfolding set_of
replace_codes user_id hashes users = pure tt (insert user_id (set_of hashes) users)

unfoldable pub consume_code : ℕ → Text → Exec (Map (List Text)) ℕ
unfolding is_in without
consume_code user_id hash users = elim (lookup user_id users) [
  | none ↦ fail code_not_found users
  | some set ↦
      if not (is_in hash set)
      then fail code_not_found users
      else pure (length (without hash set)) (insert user_id (without hash set) users)
]

unfoldable pub count_codes : ℕ → Exec (Map (List Text)) ℕ
count_codes user_id users = elim (lookup user_id users) [
  | none ↦ pure 0 users
  | some set ↦ pure (length set) users
]

unfoldable pub delete_codes : ℕ → Exec (Map (List Text)) Unit
delete_codes user_id users = pure tt (delete user_id users)
