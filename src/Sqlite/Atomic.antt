-- ===== src/Sqlite/Atomic.antt =====
-- What a failure leaves in the tables of store/sql/sqlite.
use sulis.Base.{◌≡◌, refl, ◌∙◌, Option, none, some, List, [], ◌∷◌, arith, Bool}
use sulis.Base.Text.{Text}
use sulis.Error.{Error, Result, ok, err}
use sulis.Exec.{Exec}
use sulis.Service.Tokens.{wrapping}
use sulis.Sqlite.{Db, outcome, in_transaction, rolled_back, begun, execute, execute_unless}

module _ {T : Type 0} where
  pub outcome-tables : (db : Db T) → (outcome db).1.tables ≡ db.tables
  unfolding outcome
  outcome-tables db = go db.outcomes
    where
      go :
          (outcomes : List (Option Error))
          → (outcome (record db { outcomes = outcomes })).1.tables ≡ db.tables
      go [] = refl
      go (none ∷ rest) = refl
      go (some e ∷ rest) = refl

  rolled_back-atomic :
      {A : Type 0} (before : T) (run : Result A × Db T) (e : Error)
      → (rolled_back before run).0 ≡ err e
      → (rolled_back before run).1.tables ≡ before
  rolled_back-atomic before (ok a, db) e h = cc
  rolled_back-atomic before (err f, db) e h = refl

  wrapping-tables :
      (message : Text) (db : Db T) → (wrapping message outcome db).1.tables ≡ (outcome db).1.tables
  wrapping-tables message db = ground arith

  begun-atomic :
      {A : Type 0} (committing : Text) (body : Exec (Db T) A) (begin : Result Unit × Db T)
      (e : Error)
      → (begun committing body begin).0 ≡ err e
      → (begun committing body begin).1.tables ≡ begin.1.tables
  begun-atomic committing body (err f, db) e h = refl
  begun-atomic committing body (ok _, db) e h = rolled_back-atomic db.tables _ e h

  -- A transaction that returns an error has changed nothing.
  pub in_transaction-atomic :
      {A : Type 0} (beginning committing : Text) (body : Exec (Db T) A) (db : Db T) (e : Error)
      → (in_transaction beginning committing body db).0 ≡ err e
      → (in_transaction beginning committing body db).1.tables ≡ db.tables
  unfolding in_transaction
  in_transaction-atomic beginning committing body db e h =
      begun-atomic committing body (wrapping beginning outcome db) e h
      ∙ (wrapping-tables beginning db ∙ outcome-tables db)

  -- So has a statement of its own.
  execute-atomic :
      (f : T → T) (db : Db T) (e : Error)
      → (execute f db).0 ≡ err e
      → (execute f db).1.tables ≡ db.tables
  execute-atomic f db e h = ground (arith, outcome-tables db)

  execute_unless-atomic :
      (violates : T → Bool) (f : T → T) (db : Db T) (e : Error)
      → (execute_unless violates f db).0 ≡ err e
      → (execute_unless violates f db).1.tables ≡ db.tables
  execute_unless-atomic violates f db e h = ground (arith, outcome-tables db)
