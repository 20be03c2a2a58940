-- ===== src/Postgres/Equivalence/Totp.antt =====
-- The methods of store/sql/postgres/totp.go beside those of store/sql/sqlite/totp.go.
use sulis.Base.{ℕ, ◌≡◌, arith}
use sulis.Error.{Result}
use sulis.Exec.{Exec}
use sulis.Totp.{Credential}
use sulis.Sqlite
use sulis.Sqlite.{Db, outcome, in_transaction}
use sulis.Sqlite.Totp as SqlTotp
use sulis.Sqlite.Totp.{TotpTables}
use sulis.Postgres
use sulis.Postgres.{Host, Pg, transaction, lock_user}
use sulis.Postgres.Totp as PgTotp
use sulis.Postgres.Equivalence.{seen_sql, seen_pg, reason}

pub data Call : Type 0 where
  gets_active gets_pending deletes : ℕ → Call
  enrolls replaces saves : Credential → Call
  confirms : ℕ → ℕ → ℕ → Call

abbrev pub Returned : Call → Type 0
Returned (gets_active user_id) = Credential
Returned (gets_pending user_id) = Credential
Returned (confirms user_id pending_id counter) = Credential
Returned _ = Unit

abbrev pub run_sql : (call : Call) → Exec (Db TotpTables) (Returned call)
run_sql (gets_active user_id) = SqlTotp.get_active_totp user_id
run_sql (gets_pending user_id) = SqlTotp.get_pending_totp user_id
run_sql (deletes user_id) = SqlTotp.delete_totp user_id
run_sql (enrolls cred) = SqlTotp.enroll_pending cred
run_sql (replaces cred) = SqlTotp.replace_pending cred
run_sql (saves cred) = SqlTotp.save_totp cred
run_sql (confirms user_id pending_id counter) =
    SqlTotp.confirm_enrollment user_id pending_id counter

abbrev pub run_pg : Host → (call : Call) → Pg TotpTables (Returned call)
run_pg host (gets_active user_id) = PgTotp.get_active_totp user_id
run_pg host (gets_pending user_id) = PgTotp.get_pending_totp user_id
run_pg host (deletes user_id) = PgTotp.delete_totp host user_id
run_pg host (enrolls cred) = PgTotp.enroll_pending host cred
run_pg host (replaces cred) = PgTotp.replace_pending host cred
run_pg host (saves cred) = PgTotp.save_totp host cred
run_pg host (confirms user_id pending_id counter) =
    PgTotp.confirm_enrollment host user_id pending_id counter

-- Each method answers the same and leaves the same rows, as long as the driver reports no failure.
pub totp_calls-agree :
    (host : Host) (call : Call) (tables : TotpTables)
    → ◌≡◌ {A = Result (Returned call) × TotpTables}
        (seen_pg (run_pg host call) tables)
        (seen_sql (run_sql call) tables)
unfolding outcome reason Sqlite.affected Postgres.affected in_transaction transaction lock_user
    SqlTotp.get_active_totp SqlTotp.get_pending_totp SqlTotp.delete_totp SqlTotp.enroll_pending
    SqlTotp.replace_pending SqlTotp.save_totp SqlTotp.refused_save SqlTotp.confirm_enrollment
    SqlTotp.take_pending SqlTotp.promote PgTotp.get_active_totp PgTotp.get_pending_totp
    PgTotp.delete_totp PgTotp.enroll_pending PgTotp.replace_pending PgTotp.save_totp
    PgTotp.refused_save PgTotp.confirm_enrollment PgTotp.take_pending PgTotp.promote
    PgTotp.locked_exec
totp_calls-agree host (gets_active user_id) tables = ground arith
totp_calls-agree host (gets_pending user_id) tables = ground arith
totp_calls-agree host (deletes user_id) tables = ground arith
totp_calls-agree host (enrolls cred) tables = ground arith
totp_calls-agree host (replaces cred) tables = ground arith
totp_calls-agree host (saves cred) tables = ground arith
totp_calls-agree host (confirms user_id pending_id counter) tables = ground arith
