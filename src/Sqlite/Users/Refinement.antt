-- ===== src/Sqlite/Users/Refinement.antt =====
-- The writes of store/sql/sqlite/user.go beside those of memstore/user.go.
use native.Mathlib.Decide.{ℕ_discrete}
use sulis.Base.{
  ℕ, ◌+◌, ◌≡◌, ◌≢◌, refl, true, false, ◌||◌, none, some, List, [], ◌∷◌, ◌++◌, arith, All, is_some,
  Option-cases, inl, inr,
}
use sulis.Base.Text.{to_lower}
use sulis.Base.Map.{Map, lookup, insert, delete, find, DistinctKeys}
use sulis.Error.{Result, err, Error}
use sulis.Exec.{Exec}
use sulis.Model.{User}
use sulis.Memstore.Users
use sulis.Memstore.Users.{email_taken, holds_email}
use sulis.Memstore.Users.Validity.{Write, run, creates, updates, deletes}
use sulis.Sqlite.{
  Db, any, count_rows, update_rows, delete_rows, affected, in_transaction, outcome,
  is_unique_violation,
}
use sulis.Sqlite.Atomic.{outcome-tables, in_transaction-atomic}
use sulis.Sqlite.Users.{
  create_user, update_user, delete_user, bars_insert, bars_update, has_id, has_id_and_version,
  set_columns, update_statement, refused_update,
}

-- the rows as a map from their ids
unfoldable pub keyed : List User → Map User
keyed [] = []
keyed (u ∷ users) = (u.id, u) ∷ keyed users

abbrev pub run_sql : Write → Exec (Db (List User)) (Unit {0})
run_sql (creates u) = create_user u
run_sql (updates u) = update_user u
run_sql (deletes id) = delete_user id

-- The service writes addresses in lower case, and a new row with the version 0.
abbrev pub IsCanonical : User → Type 0
IsCanonical u = to_lower u.email ≡ u.email

abbrev pub IsServiceWrite : Write → Type 0
IsServiceWrite (creates u) = IsCanonical u × (u.version ≡ 0)
IsServiceWrite (updates u) = IsCanonical u
IsServiceWrite (deletes id) = Unit

-- Under canonical addresses the collation is equality.
any-bars_update :
    (u : User) (rows : List User)
    → IsCanonical u
    → All IsCanonical rows
    → any (bars_update u) rows ≡ email_taken u.email u.id (keyed rows)
unfolding any email_taken find keyed
any-bars_update u [] c cs = refl
any-bars_update u (row ∷ rows) c (cr, cs) = ground (arith, any-bars_update u rows c cs, cr, c)

any-bars_insert :
    (u : User) (rows : List User)
    → IsCanonical u
    → All IsCanonical rows
    → any (bars_insert u) rows
      ≡ (is_some (lookup u.id (keyed rows)) || email_taken u.email u.id (keyed rows))
unfolding any email_taken find keyed lookup
any-bars_insert u [] c cs = refl
any-bars_insert u (row ∷ rows) c (cr, cs) = ground (arith, any-bars_insert u rows c cs, cr, c)

keyed-append :
    (u : User) (rows : List User)
    → lookup u.id (keyed rows) ≡ none
    → keyed (rows ++ (u ∷ [])) ≡ insert u.id u (keyed rows)
unfolding keyed insert lookup
keyed-append u [] absent = refl
keyed-append u (row ∷ rows) absent = ground (arith, keyed-append u rows)

keyed-delete_rows :
    (id : ℕ) (rows : List User) → keyed (delete_rows (has_id id) rows) ≡ delete id (keyed rows)
unfolding keyed delete delete_rows
keyed-delete_rows id [] = refl
keyed-delete_rows id (row ∷ rows) = ground (arith, keyed-delete_rows id rows)

absent-rows :
    (u : User) (rows : List User)
    → lookup u.id (keyed rows) ≡ none
    → (count_rows (has_id_and_version u) rows ≡ 0)
      × (any (has_id u.id) rows ≡ false)
      × (any (has_id_and_version u) rows ≡ false)
      × (update_rows (has_id_and_version u) (set_columns u) rows ≡ rows)
unfolding any count_rows keyed lookup update_rows
absent-rows u [] absent = (refl, refl, refl, refl)
absent-rows u (row ∷ rows) absent = ground (arith, absent-rows u rows)

stale-rows :
    (u existing : User) (rows : List User)
    → DistinctKeys (keyed rows)
    → lookup u.id (keyed rows) ≡ some existing
    → existing.version ≢ u.version
    → (count_rows (has_id_and_version u) rows ≡ 0)
      × (any (has_id u.id) rows ≡ true)
      × (any (has_id_and_version u) rows ≡ false)
      × (update_rows (has_id_and_version u) (set_columns u) rows ≡ rows)
unfolding any count_rows keyed lookup update_rows
stale-rows u existing [] d there stale = cc
stale-rows u existing (row ∷ rows) d there stale =
    ground (arith, stale-rows u existing rows d.1, absent-rows u rows)

current-rows :
    (u existing : User) (rows : List User)
    → DistinctKeys (keyed rows)
    → lookup u.id (keyed rows) ≡ some existing
    → existing.version ≡ u.version
    → (count_rows (has_id_and_version u) rows ≡ 1)
      × (any (has_id_and_version u) rows ≡ true)
      × (keyed (update_rows (has_id_and_version u) (set_columns u) rows)
          ≡ insert u.id (record u { version = existing.version + 1 }) (keyed rows))
unfolding any count_rows keyed lookup update_rows insert
current-rows u existing [] d there same = cc
current-rows u existing (row ∷ rows) d there same =
    ground (arith, current-rows u existing rows d.1, absent-rows u rows)

update_user-refines :
    (u : User) (rows : List User)
    → DistinctKeys (keyed rows)
    → All IsCanonical rows
    → IsCanonical u
    → let (r, after) = update_user u (record { tables = rows; outcomes = [] }) in
      ◌≡◌ {A = Result Unit × Map User} (r, keyed after.tables) (Users.update_user u (keyed rows))
unfolding update_user update_statement refused_update affected in_transaction outcome
    Users.update_user is_unique_violation
update_user-refines u rows d cs c = elim (Option-cases (lookup u.id (keyed rows))) [
  | inl absent ↦ ground (arith, absent, absent-rows u rows absent)
  | inr (existing, there) ↦ elim (ℕ_discrete existing.version u.version) [
    | yes same ↦
        ground
          (arith, there, current-rows u existing rows d there same, any-bars_update u rows c cs)
    | no stale ↦ ground (arith, there, stale-rows u existing rows d there stale)
  ]
]

create_user-refines :
    (u : User) (rows : List User)
    → All IsCanonical rows
    → IsCanonical u
    → u.version ≡ 0
    → let (r, after) = create_user u (record { tables = rows; outcomes = [] }) in
      ◌≡◌ {A = Result Unit × Map User} (r, keyed after.tables) (Users.create_user u (keyed rows))
unfolding create_user outcome Users.create_user is_unique_violation
create_user-refines u rows cs c fresh = ground (
  arith,
  any-bars_insert u rows c cs,
  keyed-append u rows,
  Option-cases (lookup u.id (keyed rows)),
)

-- On rows with distinct ids and canonical addresses, and as long as the driver reports no failure, each
-- write of the SQLite user store with a canonical address, and the version 0 for a new row, returns what
-- the write of the in-memory store returns, and leaves the rows that it leaves.
pub run_sql-refines :
    (write : Write) (rows : List User)
    → DistinctKeys (keyed rows)
    → All IsCanonical rows
    → IsServiceWrite write
    → let (r, after) = run_sql write (record { tables = rows; outcomes = [] }) in
      ◌≡◌ {A = Result Unit × Map User} (r, keyed after.tables) (run write (keyed rows))
unfolding delete_user outcome Users.delete_user run
run_sql-refines (creates u) rows d cs (c, fresh) = create_user-refines u rows cs c fresh
run_sql-refines (updates u) rows d cs c = update_user-refines u rows d cs c
run_sql-refines (deletes id) rows d cs c = ground (arith, keyed-delete_rows id rows)

-- A write of the SQLite user store that returns an error leaves every row as it was, whichever of its
-- statements failed.
pub run_sql-atomic :
    (write : Write) (db : Db (List User)) (e : Error)
    → (run_sql write db).0 ≡ err e
    → (run_sql write db).1.tables ≡ db.tables
unfolding create_user update_user delete_user
run_sql-atomic (creates u) db e h = ground (arith, outcome-tables db)
run_sql-atomic (updates u) db e h = in_transaction-atomic _ _ _ db e h
run_sql-atomic (deletes id) db e h = ground (arith, outcome-tables db)
