-- ===== src/Postgres/Equivalence/Users.antt =====
-- The methods of store/sql/postgres/user.go beside those of store/sql/sqlite/user.go.
use sulis.Base.{ℕ, ◌≡◌, refl, List, [], ◌∷◌, arith, All, ◌&&◌, Bool-cases, inl, inr}
use sulis.Base.Text.{Text, to_lower}
use sulis.Error.{Result}
use sulis.Exec.{Exec}
use sulis.Model.{User}
use sulis.Sqlite
use sulis.Sqlite.{Db, any, select_row, outcome, in_transaction}
use sulis.Sqlite.Users
use sulis.Sqlite.Users.{has_id_and_version}
use sulis.Postgres
use sulis.Postgres.{Host, Pg, transaction}
use sulis.Postgres.Users as PgUsers
use sulis.Postgres.Equivalence.{seen_sql, seen_pg, reason}

pub data Call : Type 0 where
  creates updates : User → Call
  gets deletes : ℕ → Call
  finds : Text → Call

abbrev pub Returned : Call → Type 0
Returned (gets id) = User
Returned (finds email) = User
Returned _ = Unit

abbrev pub run_sql : (call : Call) → Exec (Db (List User)) (Returned call)
run_sql (creates user) = Users.create_user user
run_sql (updates user) = Users.update_user user
run_sql (gets id) = Users.get_user_by_id id
run_sql (deletes id) = Users.delete_user id
run_sql (finds email) = Users.get_user_by_email email

abbrev pub run_pg : Host → (call : Call) → Pg (List User) (Returned call)
run_pg host (creates user) = PgUsers.create_user host user
run_pg host (updates user) = PgUsers.update_user host user
run_pg host (gets id) = PgUsers.get_user_by_id id
run_pg host (deletes id) = PgUsers.delete_user id
run_pg host (finds email) = PgUsers.get_user_by_email host email

-- lower of the database and the folding of NOCASE, which is of the ASCII letters, agree on an address
abbrev pub IsFolded : Host → Text → Type 0
IsFolded host email = host.lower email ≡ to_lower email

abbrev pub HasFolded : Host → User → Type 0
HasFolded host user = IsFolded host user.email

abbrev pub IsFoldedCall : Host → Call → Type 0
IsFoldedCall host (creates user) = HasFolded host user
IsFoldedCall host (updates user) = HasFolded host user
IsFoldedCall host (finds email) = IsFolded host email
IsFoldedCall host _ = Unit

module _ (host : Host) where
  any-bars_insert :
      (user : User) (rows : List User)
      → HasFolded host user
      → All (HasFolded host) rows
      → any (PgUsers.bars_insert host user) rows ≡ any (Users.bars_insert user) rows
  unfolding any
  any-bars_insert user [] f fs = refl
  any-bars_insert user (row ∷ rows) f (fr, fs) =
      ground (arith, any-bars_insert user rows f fs, fr, f)

  any-bars_update :
      (user : User) (rows : List User)
      → HasFolded host user
      → All (HasFolded host) rows
      → any (PgUsers.bars_update host user) rows ≡ any (Users.bars_update user) rows
  unfolding any
  any-bars_update user [] f fs = refl
  any-bars_update user (row ∷ rows) f (fr, fs) =
      ground (arith, any-bars_update user rows f fs, fr, f)

  select-has_email :
      (email : Text) (rows : List User)
      → IsFolded host email
      → All (HasFolded host) rows
      → select_row (PgUsers.has_email host email) rows ≡ select_row (Users.has_email email) rows
  unfolding select_row
  select-has_email email [] f fs = refl
  select-has_email email (row ∷ rows) f (fr, fs) =
      ground (arith, select-has_email email rows f fs, fr, f)

  create_user-agree :
      (user : User) (rows : List User)
      → HasFolded host user
      → All (HasFolded host) rows
      → ◌≡◌ {A = Result Unit × List User}
          (seen_pg (PgUsers.create_user host user) rows)
          (seen_sql (Users.create_user user) rows)
  unfolding outcome reason Sqlite.is_unique_violation Postgres.is_unique_violation Users.create_user
      PgUsers.create_user
  create_user-agree user rows f fs = ground (arith, any-bars_insert user rows f fs)

  update_user-agree :
      (user : User) (rows : List User)
      → HasFolded host user
      → All (HasFolded host) rows
      → ◌≡◌ {A = Result Unit × List User}
          (seen_pg (PgUsers.update_user host user) rows)
          (seen_sql (Users.update_user user) rows)
  unfolding outcome reason Sqlite.affected Postgres.affected in_transaction transaction
      Sqlite.is_unique_violation Postgres.is_unique_violation Users.update_user
      Users.update_statement Users.refused_update PgUsers.update_user PgUsers.update_statement
      PgUsers.refused_update
  update_user-agree user rows f fs =
      elim (Bool-cases (any (has_id_and_version user) rows && any (Users.bars_update user) rows)) [
        | inl violated ↦ ground (arith, any-bars_update user rows f fs, violated)
        | inr allowed ↦ ground (arith, any-bars_update user rows f fs, allowed)
      ]

-- Each method answers the same and leaves the same rows, as long as the driver reports no failure, and the
-- two foldings agree on the addresses.
pub user_calls-agree :
    (host : Host) (call : Call) (rows : List User)
    → IsFoldedCall host call
    → All (HasFolded host) rows
    → ◌≡◌ {A = Result (Returned call) × List User}
        (seen_pg (run_pg host call) rows)
        (seen_sql (run_sql call) rows)
unfolding outcome reason Users.get_user_by_id Users.delete_user Users.get_user_by_email
    PgUsers.get_user_by_id PgUsers.delete_user PgUsers.get_user_by_email
user_calls-agree host (creates user) rows f fs = create_user-agree host user rows f fs
user_calls-agree host (updates user) rows f fs = update_user-agree host user rows f fs
user_calls-agree host (gets id) rows f fs = ground arith
user_calls-agree host (deletes id) rows f fs = ground arith
user_calls-agree host (finds email) rows f fs =
    ground (arith, select-has_email host email rows f fs)
