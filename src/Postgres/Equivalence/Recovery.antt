-- ===== src/Postgres/Equivalence/Recovery.antt =====
-- The methods of store/sql/postgres/recovery.go beside those of store/sql/sqlite/recovery.go.
use sulis.Base.{ℕ, ◌≡◌, refl, List, [], ◌∷◌, arith, ◌++◌, Bool-cases, inl, inr}
use sulis.Base.Text.{Text}
use sulis.Error.{Result}
use sulis.Exec.{Exec}
use sulis.Sqlite
use sulis.Sqlite.{Db, any, delete_rows, outcome, in_transaction}
use sulis.Sqlite.Recovery as SqlRecovery
use sulis.Sqlite.Recovery.{CodeRow, is_code, owned_by}
use sulis.Postgres
use sulis.Postgres.{Host, Pg, transaction, lock_user}
use sulis.Postgres.Recovery as PgRecovery
use sulis.Postgres.Equivalence.{seen_sql, seen_pg, reason, calm, idle}

pub data Call : Type 0 where
  replaces : ℕ → ℕ → List Text → Call
  consumes : ℕ → Text → Call
  counts deletes : ℕ → Call

abbrev pub Returned : Call → Type 0
Returned (consumes user_id hash) = ℕ
Returned (counts user_id) = ℕ
Returned _ = Unit

abbrev pub run_sql : (call : Call) → Exec (Db (List CodeRow)) (Returned call)
run_sql (replaces now user_id hashes) = SqlRecovery.replace_codes now user_id hashes
run_sql (consumes user_id hash) = SqlRecovery.consume_code user_id hash
run_sql (counts user_id) = SqlRecovery.count_codes user_id
run_sql (deletes user_id) = SqlRecovery.delete_codes user_id

abbrev pub run_pg : Host → (call : Call) → Pg (List CodeRow) (Returned call)
run_pg host (replaces now user_id hashes) = PgRecovery.replace_codes now user_id hashes
run_pg host (consumes user_id hash) = PgRecovery.consume_code host user_id hash
run_pg host (counts user_id) = PgRecovery.count_codes user_id
run_pg host (deletes user_id) = PgRecovery.delete_codes user_id

insert_codes-agree :
    (now user_id : ℕ) (hashes : List Text) (rows : List CodeRow)
    → (◌≡◌ {A = Result Unit × List CodeRow}
        (seen_pg (PgRecovery.insert_codes now user_id hashes) rows)
        (seen_sql (SqlRecovery.insert_codes now user_id hashes) rows))
      × ((PgRecovery.insert_codes now user_id hashes (idle rows)).1.outcomes ≡ [])
      × ((SqlRecovery.insert_codes now user_id hashes (calm rows)).1.outcomes ≡ [])
unfolding outcome reason SqlRecovery.insert_codes PgRecovery.insert_codes
insert_codes-agree now user_id [] rows = (refl, refl, refl)
insert_codes-agree now user_id (hash ∷ hashes) rows =
    let row : CodeRow = record { user_id = user_id; code_hash = hash; created_at = now } in
    elim (Bool-cases (any (is_code user_id hash) rows)) [
      | inl taken ↦ ground (arith, taken)
      | inr free ↦ ground (arith, free, insert_codes-agree now user_id hashes (rows ++ (row ∷ [])))
    ]

-- Each method answers the same and leaves the same rows, as long as the driver reports no failure.
pub recovery_calls-agree :
    (host : Host) (call : Call) (rows : List CodeRow)
    → ◌≡◌ {A = Result (Returned call) × List CodeRow}
        (seen_pg (run_pg host call) rows)
        (seen_sql (run_sql call) rows)
unfolding outcome reason Sqlite.affected Postgres.affected in_transaction transaction lock_user
    SqlRecovery.replace_codes SqlRecovery.consume_code SqlRecovery.count_codes
    SqlRecovery.delete_codes PgRecovery.replace_codes PgRecovery.consume_code PgRecovery.count_codes
    PgRecovery.delete_codes
recovery_calls-agree host (replaces now user_id hashes) rows =
    ground (arith, insert_codes-agree now user_id hashes (delete_rows (owned_by user_id) rows))
recovery_calls-agree host (consumes user_id hash) rows = ground arith
recovery_calls-agree host (counts user_id) rows = ground arith
recovery_calls-agree host (deletes user_id) rows = ground arith
