-- ===== src/Postgres.antt =====
-- store/sql/postgres/postgres.go: the tables and statements of store/sql/sqlite, beside the
-- transaction-scoped advisory locks that the stores take, and the driver's error class.
--
-- A call here is one connection's, with no other between its statements: the child modules of the
-- stores compare it with its SQLite counterpart, and Postgres.Concurrent interleaves connections.
pub mod Users
pub mod Sessions
pub mod Tokens
pub mod Passkeys
pub mod Recovery
pub mod Totp
pub mod Equivalence
pub mod Agreement
pub mod Locks
pub mod Concurrent
use sulis.Base.{ℕ, suc, ◌-◌, ◌^◌, Bool, false, ◌||◌, ◌==◌, List, [], ◌∷◌, ltb, if◌then◌else◌}
use sulis.Base.Text.{Text, codes}
use sulis.Error.{Error, foreign, wrapped, sentinel, plain, joined, panicked}
use sulis.Exec.{Exec, pure, throw, ◌>>=◌, ◌>>◌}
use sulis.Service.Tokens.{wrapping}
use sulis.Sqlite
use sulis.Sqlite.{Db, outcome, read, write, in_transaction}

pub data ℤ : Type 0 where
  pos negsuc : ℕ → ℤ

-- What is not of this package: the function lower of the database, the text of an id, and the 32-bit
-- FNV-1a hash of a text.
pub record Host : Type 0 where
  pub lower : Text → Text
  pub id_text : ℕ → Text
  pub sum32 : Text → ℕ

-- the rows, and the advisory locks that the connection holds, each a class with a key
pub record Locked (T : Type 0) : Type 0 where
  pub rows : T
  pub locks : List (ℕ × ℤ)

abbrev pub Pg : Type 0 → Type 0 → Type 0
Pg T A = Exec (Db (Locked T)) A

-- SQLSTATE 23505
abbrev pub unique_violation : ℕ
unique_violation = 23505

abbrev pub advisory_class_totp : ℕ
advisory_class_totp = 0x53554C31

abbrev pub advisory_class_passkey : ℕ
advisory_class_passkey = 0x53554C32

abbrev pub advisory_class_recovery : ℕ
advisory_class_recovery = 0x53554C33

-- errors.As finds the driver's error, with that code
unfoldable pub is_unique_violation : Error → Bool
is_unique_violation (foreign code) = code == unique_violation
is_unique_violation (wrapped message e) = is_unique_violation e
is_unique_violation (joined e e') = is_unique_violation e || is_unique_violation e'
is_unique_violation (sentinel s) = false
is_unique_violation (plain message) = false
is_unique_violation panicked = false

-- int32 of a uint32
unfoldable pub int32 : ℕ → ℤ
int32 n = if ltb n (2 ^ 31) then pos n else negsuc (2 ^ 32 - suc n)

unfoldable pub advisory_key : Host → Text → ℤ
advisory_key host user_id = int32 (host.sum32 user_id)

module _ {T : Type 0} where
  abbrev pub on_rows : (T → T) → Locked T → Locked T
  on_rows f t = record t { rows = f t.rows }

  abbrev pub query : {A : Type 0} → (T → A) → Pg T A
  query f = Sqlite.query λ t. f t.rows

  abbrev pub execute : (T → T) → Pg T Unit
  execute f = Sqlite.execute (on_rows f)

  abbrev pub execute_counted : (T → ℕ) → (T → T) → Pg T ℕ
  execute_counted count f = Sqlite.execute_counted (λ t. count t.rows) (on_rows f)

  -- a statement that a uniqueness constraint refuses where the test holds
  abbrev pub execute_unless : (T → Bool) → (T → T) → Pg T Unit
  execute_unless violates f = do
    outcome
    violated ← read λ t. violates t.rows
    if violated then throw (foreign unique_violation) else write (on_rows f)

  -- sql.Result.RowsAffected of a statement, read after it; the text names the operation
  unfoldable pub affected : ℕ → Text → Pg T ℕ
  unfolding outcome
  affected n reading = do wrapping reading outcome; pure n

  unfoldable pub lock_user : Host → ℕ → ℕ → Pg T Unit
  lock_user host class user_id = wrapping (codes "sulis/postgres: locking the user's rows") (
      Sqlite.execute
        (λ t. record t { locks = (class, advisory_key host (host.id_text user_id)) ∷ t.locks }))

  abbrev pub release : Locked T → Locked T
  release t = record t { locks = [] }

  -- a transaction, whose end releases its locks: a rollback goes back to those of the beginning
  unfoldable pub transaction : {A : Type 0} → Text → Text → Pg T A → Pg T A
  transaction beginning committing body = do
    a ← in_transaction beginning committing body
    write release
    pure a
