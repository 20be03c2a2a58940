-- ===== src/Sqlite.antt =====
-- store/sql/sqlite/sqlite.go: a database with its tables as lists of rows, and the statements that
-- the stores send to it.
--
-- A column holds the Go value that its encoding stands for: formatTime prints times so that their
-- order is that of the text, and the JSON columns are opaque. The pool has one connection, so the
-- statements of a store's method are not interleaved with others. What a statement answers beside its
-- result is an outcome: nothing, or the error of the driver, whose code `foreign` holds.
pub mod Users
pub mod Atomic
pub mod Tokens
pub mod Sessions
pub mod Passkeys
pub mod Recovery
pub mod Totp
use sulis.Base.{
  ℕ, suc, Bool, true, false, ◌&&◌, ◌||◌, Option, none, some, List, [], ◌∷◌, ◌++◌, ◌==◌,
  if◌then◌else◌,
}
use sulis.Base.Text.{Text, codes}
use sulis.Error.{Error, Result, ok, err, foreign, wrapped, sentinel, plain, joined, panicked}
use sulis.Exec.{Exec, pure, throw, total, ◌>>=◌, ◌>>◌}
use sulis.Service.Tokens.{wrapping}

pub record Db (T : Type 0) : Type 0 where
  pub tables : T
  -- what the next statements answer: an error of the driver, or that there is none
  pub outcomes : List (Option Error)

-- SQLITE_CONSTRAINT_UNIQUE
abbrev pub unique_code : ℕ
unique_code = 2067

-- SQLITE_CONSTRAINT_PRIMARYKEY
abbrev pub primary_key_code : ℕ
primary_key_code = 1555

-- errors.As finds the driver's error, with one of the two codes
unfoldable pub is_unique_violation : Error → Bool
is_unique_violation (foreign code) = code == unique_code || code == primary_key_code
is_unique_violation (wrapped message e) = is_unique_violation e
is_unique_violation (joined e e') = is_unique_violation e || is_unique_violation e'
is_unique_violation (sentinel s) = false
is_unique_violation (plain message) = false
is_unique_violation panicked = false

module _ {R : Type 0} where
  unfoldable pub any : (R → Bool) → List R → Bool
  any p [] = false
  any p (row ∷ rows) = let rest = any p rows in p row || rest

  -- SELECT … WHERE, for one row
  unfoldable pub select_row : (R → Bool) → List R → Option R
  select_row p [] = none
  select_row p (row ∷ rows) = let rest = select_row p rows in if p row then some row else rest

  -- SELECT … WHERE
  unfoldable pub select_rows : (R → Bool) → List R → List R
  select_rows p [] = []
  select_rows p (row ∷ rows) = let rest = select_rows p rows in if p row then row ∷ rest else rest

  -- SELECT COUNT(*) … WHERE
  unfoldable pub count_rows : (R → Bool) → List R → ℕ
  count_rows p [] = 0
  count_rows p (row ∷ rows) = let rest = count_rows p rows in if p row then suc rest else rest

  -- UPDATE … SET … WHERE
  unfoldable pub update_rows : (R → Bool) → (R → R) → List R → List R
  update_rows p f [] = []
  update_rows p f (row ∷ rows) =
      let rest = update_rows p f rows in if p row then f row ∷ rest else row ∷ rest

  -- DELETE … WHERE
  unfoldable pub delete_rows : (R → Bool) → List R → List R
  delete_rows p [] = []
  delete_rows p (row ∷ rows) = let rest = delete_rows p rows in if p row then rest else row ∷ rest

module _ {T : Type 0} where
  -- whether the next statement is carried out
  unfoldable pub outcome : Exec (Db T) Unit
  outcome db = elim db.outcomes [
    | [] ↦ pure tt db
    | none ∷ rest ↦ pure tt (record db { outcomes = rest })
    | some e ∷ rest ↦ throw e (record db { outcomes = rest })
  ]

  abbrev pub read : {A : Type 0} → (T → A) → Exec (Db T) A
  read f = total λ db. (f db.tables, db)

  abbrev pub write : (T → T) → Exec (Db T) Unit
  write f = total λ db. (tt, record db { tables = f db.tables })

  -- a query
  abbrev pub query : {A : Type 0} → (T → A) → Exec (Db T) A
  query f = do outcome; read f

  -- a statement that no constraint refuses
  abbrev pub execute : (T → T) → Exec (Db T) Unit
  execute f = do outcome; write f

  -- sql.Result.RowsAffected of a statement, read after it
  unfoldable pub affected : ℕ → Exec (Db T) ℕ
  unfolding outcome
  affected n = do wrapping (codes "sulis/sqlite: reading the affected row count") outcome; pure n

  -- a statement with the number of rows that it changes
  abbrev pub execute_counted : (T → ℕ) → (T → T) → Exec (Db T) ℕ
  execute_counted count f = do outcome; n ← read count; write f; pure n

  -- a statement that a uniqueness constraint refuses where the test holds
  abbrev pub execute_unless : (T → Bool) → (T → T) → Exec (Db T) Unit
  execute_unless violates f = do
    outcome
    violated ← read violates
    if violated then throw (foreign unique_code) else write f

  -- back to the tables of the beginning if an error is returned
  abbrev pub rolled_back : {A : Type 0} → T → Result A × Db T → Result A × Db T
  rolled_back before (ok a, db) = (ok a, db)
  rolled_back before (err e, db) = (err e, record db { tables = before })

  -- what follows BeginTx: the body and Commit, with the deferred rollback
  abbrev pub begun :
      {A : Type 0} → Text → Exec (Db T) A → Result (Unit {0}) × Db T → Result A × Db T
  begun committing body (err e, db) = (err e, db)
  begun committing body (ok _, db) =
      rolled_back db.tables ((do a ← body; wrapping committing outcome; pure a) db)

  -- a transaction: BeginTx, the body and Commit
  unfoldable pub in_transaction : {A : Type 0} → Text → Text → Exec (Db T) A → Exec (Db T) A
  in_transaction beginning committing body db =
      begun committing body (wrapping beginning outcome db)
