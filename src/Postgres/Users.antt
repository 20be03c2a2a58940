-- ===== src/Postgres/Users.antt =====
-- store/sql/postgres/user.go and the table users of its schema.sql, which is unique on lower(email).
use sulis.Base.{ℕ, Bool, ◌&&◌, ◌||◌, not, List, [], ◌∷◌, ◌++◌, ◌==◌, if◌then◌else◌}
use sulis.Base.Text.{Text, codes, text_eq}
use sulis.Error.{
  Error, ok, err, foreign, wrapped, user_not_found, user_already_exists, concurrent_update,
}
use sulis.Exec.{Exec, pure, throw, fail, attempt, ◌>>=◌, ◌>>◌}
use sulis.Model.{User}
use sulis.Service.Tokens.{wrapping}
use sulis.Sqlite.{any, select_row, count_rows, update_rows, delete_rows, outcome, read, write}
use sulis.Sqlite.Users.{has_id, found, has_id_and_version, set_columns}
use sulis.Postgres.{
  Host, Pg, query, execute, execute_unless, affected, on_rows, transaction, is_unique_violation,
  unique_violation,
}

-- lower(email) = lower($1)
abbrev pub has_email : Host → Text → User → Bool
has_email host email row = text_eq (host.lower row.email) (host.lower email)

-- the row stands in the way of a new row
abbrev pub bars_insert : Host → User → User → Bool
bars_insert host user row = row.id == user.id || has_email host user.email row

-- another row stands in the way of the new address of a row
abbrev pub bars_update : Host → User → User → Bool
bars_update host user row = not (row.id == user.id) && has_email host user.email row

-- a row that a constraint refused, or another failure
abbrev pub already_exists_or : {W A : Type 0} → Text → Error → Exec W A
already_exists_or message e =
    if is_unique_violation e then fail user_already_exists else throw (wrapped message e)

unfoldable pub create_user : Host → User → Pg (List User) Unit
create_user host user = do
  inserted ← attempt (
      execute_unless (any (bars_insert host user))
        (λ rows. rows ++ (record user { version = 0 } ∷ [])))
  elim inserted [
    | ok _ ↦ pure tt
    | err e ↦ already_exists_or (codes "sulis/postgres: creating a user") e
  ]

unfoldable pub get_user_by_id : ℕ → Pg (List User) User
get_user_by_id id = do
  row ← wrapping (codes "sulis/postgres: reading a user") (query (select_row (has_id id)))
  found row

unfoldable pub get_user_by_email : Host → Text → Pg (List User) User
get_user_by_email host email = do
  row ←
      wrapping (codes "sulis/postgres: reading a user") (query (select_row (has_email host email)))
  found row

-- the statement of UpdateUser, with the number of rows that it changed
unfoldable pub update_statement : Host → User → Pg (List User) ℕ
update_statement host user = do
  outcome
  violated ← read λ t. any (has_id_and_version user) t.rows && any (bars_update host user) t.rows
  n ← read λ t. count_rows (has_id_and_version user) t.rows
  if violated then throw (foreign unique_violation) else pure tt
  write (on_rows (update_rows (has_id_and_version user) (set_columns user)))
  pure n

-- why no row was changed
unfoldable pub refused_update : User → Pg (List User) Unit
refused_update user = do
  exists ← wrapping (codes "sulis/postgres: updating a user") (query (any (has_id user.id)))
  if exists then fail concurrent_update else fail user_not_found

abbrev pub counting : Text
counting = codes "sulis/postgres: updating a user: reading the affected row count"

unfoldable pub update_user : Host → User → Pg (List User) Unit
update_user host user =
    transaction (codes "sulis/postgres: updating a user")
      (codes "sulis/postgres: committing a user update")
      (do
        updated ← attempt (update_statement host user)
        elim updated [
          | err e ↦ already_exists_or (codes "sulis/postgres: updating a user") e
          | ok changed ↦ do
            n ← affected changed counting
            if n == 0 then refused_update user else pure tt
        ])

unfoldable pub delete_user : ℕ → Pg (List User) Unit
delete_user id =
    wrapping (codes "sulis/postgres: deleting a user") (execute (delete_rows (has_id id)))
