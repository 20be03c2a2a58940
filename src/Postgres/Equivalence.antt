-- ===== src/Postgres/Equivalence.antt =====
-- What store/sql/postgres has in common with store/sql/sqlite: an answer up to the texts of its errors
-- and the codes of the driver, and the rows.
pub mod Sessions
pub mod Tokens
pub mod Recovery
pub mod Passkeys
pub mod Totp
pub mod Users
use sulis.Base.{[]}
use sulis.Error.{Error, Result, ok, err, sentinel, foreign, wrapped, plain, joined, panicked}
use sulis.Exec.{Exec}
use sulis.Sqlite.{Db}
use sulis.Postgres.{Locked, Pg}

-- the error without the texts and the code
unfoldable pub reason : Error → Error
reason (sentinel s) = sentinel s
reason (foreign code) = foreign 0
reason (wrapped message e) = reason e
reason (plain message) = plain []
reason (joined e e') = joined (reason e) (reason e')
reason panicked = panicked

module _ {A : Type 0} where
  abbrev pub answer : Result A → Result A
  answer (ok a) = ok a
  answer (err e) = err (reason e)

module _ {T : Type 0} where
  -- as long as the driver reports no failure
  abbrev pub calm : T → Db T
  calm rows = record { tables = rows; outcomes = [] }

  -- and outside of a transaction
  abbrev pub idle : T → Db (Locked T)
  idle rows = record { tables = record { rows = rows; locks = [] }; outcomes = [] }

  abbrev pub seen_sql : {A : Type 0} → Exec (Db T) A → T → Result A × T
  seen_sql m rows = let (r, after) = m (calm rows) in (answer r, after.tables)

  abbrev pub seen_pg : {A : Type 0} → Pg T A → T → Result A × T
  seen_pg m rows = let (r, after) = m (idle rows) in (answer r, after.tables.rows)
