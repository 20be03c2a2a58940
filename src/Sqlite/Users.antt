-- ===== src/Sqlite/Users.antt =====
-- store/sql/sqlite/user.go and the table users of schema.sql, whose column email is unique without
-- regard to the case of ASCII letters.
pub mod Refinement
pub mod Sequences
use sulis.Base.{
  ℕ, ◌+◌, Bool, ◌&&◌, not, Option, none, some, List, [], ◌∷◌, ◌++◌, ◌==◌, if◌then◌else◌, ◌||◌, true,
}
use sulis.Base.Text.{Text, codes, text_eq, to_lower}
use sulis.Error.{
  Error, ok, err, foreign, wrapped, sentinel, user_not_found, user_already_exists,
  concurrent_update,
}
use sulis.Exec.{Exec, pure, throw, fail, attempt, ◌>>=◌, ◌>>◌}
use sulis.Model.{User}
use sulis.Service.Tokens.{wrapping}
use sulis.Sqlite.{
  Db, any, select_row, count_rows, update_rows, delete_rows, query, execute, execute_unless,
  in_transaction, is_unique_violation, outcome, affected, read, write, unique_code,
}

-- a = b on the column email
abbrev pub nocase_eq : Text → Text → Bool
nocase_eq a b = text_eq (to_lower a) (to_lower b)

abbrev pub has_id : ℕ → User → Bool
has_id id row = row.id == id

abbrev pub has_email : Text → User → Bool
has_email email row = nocase_eq row.email email

-- the row stands in the way of a new row
abbrev pub bars_insert : User → User → Bool
bars_insert user row = row.id == user.id || nocase_eq row.email user.email

-- another row stands in the way of the new address of a row
abbrev pub bars_update : User → User → Bool
bars_update user row = not (row.id == user.id) && nocase_eq row.email user.email

-- a row that a constraint refused, or another failure
abbrev pub already_exists_or : {W A : Type 0} → Text → Error → Exec W A
already_exists_or message e =
    if is_unique_violation e then fail user_already_exists else throw (wrapped message e)

unfoldable pub create_user : User → Exec (Db (List User)) Unit
create_user user = do
  inserted ←
      attempt (
        execute_unless (any (bars_insert user))
          (λ rows. rows ++ (record user { version = 0 } ∷ [])))
  elim inserted [
    | ok _ ↦ pure tt
    | err e ↦ already_exists_or (codes "sulis/sqlite: creating a user") e
  ]

-- scanUser: no row is ErrUserNotFound
abbrev pub found : {W : Type 0} → Option User → Exec W User
found none = fail user_not_found
found (some u) = pure u

unfoldable pub get_user_by_id : ℕ → Exec (Db (List User)) User
get_user_by_id id = do
  row ← wrapping (codes "sulis/sqlite: reading a user") (query (select_row (has_id id)))
  found row

unfoldable pub get_user_by_email : Text → Exec (Db (List User)) User
get_user_by_email email = do
  row ← wrapping (codes "sulis/sqlite: reading a user") (query (select_row (has_email email)))
  found row

-- the row that UpdateUser addresses
abbrev pub has_id_and_version : User → User → Bool
has_id_and_version user row = row.id == user.id && row.version == user.version

-- the columns that UpdateUser sets
abbrev pub set_columns : User → User → User
set_columns user row = record user { id = row.id; version = row.version + 1 }

-- the statement of UpdateUser, with the number of rows that it changed
unfoldable pub update_statement : User → Exec (Db (List User)) ℕ
update_statement user = do
  outcome
  violated ← read λ rows. any (has_id_and_version user) rows && any (bars_update user) rows
  n ← read (count_rows (has_id_and_version user))
  if violated then throw (foreign unique_code) else pure tt
  write (update_rows (has_id_and_version user) (set_columns user))
  pure n

-- why no row was changed
unfoldable pub refused_update : User → Exec (Db (List User)) Unit
refused_update user = do
  exists ← wrapping (codes "sulis/sqlite: updating a user") (query (any (has_id user.id)))
  if exists then fail concurrent_update else fail user_not_found

unfoldable pub update_user : User → Exec (Db (List User)) Unit
update_user user =
    in_transaction (codes "sulis/sqlite: updating a user")
      (codes "sulis/sqlite: committing a user update")
      (do
        updated ← attempt (update_statement user)
        elim updated [
          | err e ↦ already_exists_or (codes "sulis/sqlite: updating a user") e
          | ok changed ↦ do n ← affected changed; if n == 0 then refused_update user else pure tt
        ])

unfoldable pub delete_user : ℕ → Exec (Db (List User)) Unit
delete_user id =
    wrapping (codes "sulis/sqlite: deleting a user") (execute (delete_rows (has_id id)))
