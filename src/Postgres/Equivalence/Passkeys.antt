-- ===== src/Postgres/Equivalence/Passkeys.antt =====
-- The methods of store/sql/postgres/passkey.go beside those of store/sql/sqlite/passkey.go.
use sulis.Base.{ℕ, ◌≡◌, Bool, List, arith}
use sulis.Base.Text.{Text}
use sulis.Error.{Result}
use sulis.Exec.{Exec}
use sulis.Passkey.{PasskeyCredential}
use sulis.Sqlite
use sulis.Sqlite.{Db, outcome, in_transaction}
use sulis.Sqlite.Passkeys
use sulis.Sqlite.Passkeys.{Challenge}
use sulis.Postgres
use sulis.Postgres.{Host, Pg, transaction, lock_user}
use sulis.Postgres.Passkeys as PgPasskeys
use sulis.Postgres.Equivalence.{seen_sql, seen_pg, reason}

pub data Call : Type 0 where
  saves : PasskeyCredential → Call
  lists deletes_all : ℕ → Call
  gets : Text → Call
  logs_in : Text → ℕ → Bool → ℕ → Call
  deletes : ℕ → ℕ → Bool → Call
  renames : ℕ → ℕ → Text → Call

abbrev pub Returned : Call → Type 0
Returned (lists user_id) = List PasskeyCredential
Returned (gets credential_id) = PasskeyCredential
Returned _ = Unit

abbrev pub run_sql : (call : Call) → Exec (Db (List PasskeyCredential)) (Returned call)
run_sql (saves cred) = Passkeys.save_credential cred
run_sql (lists user_id) = Passkeys.get_credentials_by_user_id user_id
run_sql (deletes_all user_id) = Passkeys.delete_credentials_by_user_id user_id
run_sql (gets credential_id) = Passkeys.get_credential_by_id credential_id
run_sql (logs_in credential_id sign_count backup_state t) =
    Passkeys.update_credential_after_login credential_id sign_count backup_state t
run_sql (deletes user_id id allow_last) = Passkeys.delete_credential user_id id allow_last
run_sql (renames user_id id name) = Passkeys.rename_credential user_id id name

abbrev pub run_pg : Host → (call : Call) → Pg (List PasskeyCredential) (Returned call)
run_pg host (saves cred) = PgPasskeys.save_credential cred
run_pg host (lists user_id) = PgPasskeys.get_credentials_by_user_id user_id
run_pg host (deletes_all user_id) = PgPasskeys.delete_credentials_by_user_id user_id
run_pg host (gets credential_id) = PgPasskeys.get_credential_by_id credential_id
run_pg host (logs_in credential_id sign_count backup_state t) =
    PgPasskeys.update_credential_after_login credential_id sign_count backup_state t
run_pg host (deletes user_id id allow_last) =
    PgPasskeys.delete_credential host user_id id allow_last
run_pg host (renames user_id id name) = PgPasskeys.rename_credential user_id id name

-- Each method answers the same and leaves the same rows, as long as the driver reports no failure.
pub passkey_calls-agree :
    (host : Host) (call : Call) (rows : List PasskeyCredential)
    → ◌≡◌ {A = Result (Returned call) × List PasskeyCredential}
        (seen_pg (run_pg host call) rows)
        (seen_sql (run_sql call) rows)
unfolding outcome reason Sqlite.affected Postgres.affected in_transaction transaction lock_user
    Passkeys.save_credential Passkeys.get_credentials_by_user_id Passkeys.get_credential_by_id
    Passkeys.update_credential_after_login Passkeys.refused_delete Passkeys.delete_credential
    Passkeys.delete_credentials_by_user_id Passkeys.rename_credential PgPasskeys.save_credential
    PgPasskeys.get_credentials_by_user_id PgPasskeys.get_credential_by_id
    PgPasskeys.update_credential_after_login PgPasskeys.refused_delete PgPasskeys.delete_statement
    PgPasskeys.delete_credential PgPasskeys.delete_credentials_by_user_id
    PgPasskeys.rename_credential
passkey_calls-agree host (saves cred) rows = ground arith
passkey_calls-agree host (lists user_id) rows = ground arith
passkey_calls-agree host (deletes_all user_id) rows = ground arith
passkey_calls-agree host (gets credential_id) rows = ground arith
passkey_calls-agree host (logs_in credential_id sign_count backup_state t) rows = ground arith
passkey_calls-agree host (deletes user_id id allow_last) rows = ground arith
passkey_calls-agree host (renames user_id id name) rows = ground arith

pub data ChallengeCall : Type 0 where
  saves : ℕ → ℕ → Text → Text → ChallengeCall
  consumes : ℕ → Text → ChallengeCall
  deletes_expired : ℕ → ChallengeCall

abbrev pub Given : ChallengeCall → Type 0
Given (ChallengeCall.consumes now key) = Text
Given _ = Unit

abbrev pub challenge_sql : (call : ChallengeCall) → Exec (Db (List Challenge)) (Given call)
challenge_sql (ChallengeCall.saves configured now key session_data) =
    Passkeys.save_challenge configured now key session_data
challenge_sql (ChallengeCall.consumes now key) = Passkeys.consume_challenge now key
challenge_sql (ChallengeCall.deletes_expired now) = Passkeys.delete_expired_challenges now

abbrev pub challenge_pg : (call : ChallengeCall) → Pg (List Challenge) (Given call)
challenge_pg (ChallengeCall.saves configured now key session_data) =
    PgPasskeys.save_challenge configured now key session_data
challenge_pg (ChallengeCall.consumes now key) = PgPasskeys.consume_challenge now key
challenge_pg (ChallengeCall.deletes_expired now) = PgPasskeys.delete_expired_challenges now

-- Each method of the challenge store answers the same and leaves the same rows, as long as the driver
-- reports no failure.
pub challenge_calls-agree :
    (call : ChallengeCall) (rows : List Challenge)
    → ◌≡◌ {A = Result (Given call) × List Challenge}
        (seen_pg (challenge_pg call) rows)
        (seen_sql (challenge_sql call) rows)
unfolding outcome reason Passkeys.save_challenge Passkeys.consume_challenge
    Passkeys.consume_statement Passkeys.delete_expired_challenges PgPasskeys.save_challenge
    PgPasskeys.consume_challenge PgPasskeys.consume_statement PgPasskeys.delete_expired_challenges
challenge_calls-agree (ChallengeCall.saves configured now key session_data) rows = ground arith
challenge_calls-agree (ChallengeCall.consumes now key) rows = ground arith
challenge_calls-agree (ChallengeCall.deletes_expired now) rows = ground arith
