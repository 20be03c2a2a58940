-- ===== src/Postgres/Agreement.antt =====
-- All the stores of store/sql/postgres beside those of store/sql/sqlite.
use sulis.Base.{◌≡◌, List, All}
use sulis.Error.{Result}
use sulis.Exec.{Exec}
use sulis.Model.{User, Session, Token}
use sulis.Passkey.{PasskeyCredential}
use sulis.Sqlite.{Db}
use sulis.Sqlite.Passkeys.{Challenge}
use sulis.Sqlite.Recovery.{CodeRow}
use sulis.Sqlite.Totp.{TotpTables}
use sulis.Postgres.{Host, Pg}
use sulis.Postgres.Equivalence.{seen_sql, seen_pg}
use sulis.Postgres.Equivalence.Users
use sulis.Postgres.Equivalence.Users.{IsFoldedCall, HasFolded, user_calls-agree}
use sulis.Postgres.Equivalence.Sessions
use sulis.Postgres.Equivalence.Sessions.{session_calls-agree}
use sulis.Postgres.Equivalence.Tokens
use sulis.Postgres.Equivalence.Tokens.{token_calls-agree}
use sulis.Postgres.Equivalence.Passkeys
use sulis.Postgres.Equivalence.Passkeys.{
  ChallengeCall, Given, challenge_sql, challenge_pg, passkey_calls-agree, challenge_calls-agree,
}
use sulis.Postgres.Equivalence.Totp
use sulis.Postgres.Equivalence.Totp.{totp_calls-agree}
use sulis.Postgres.Equivalence.Recovery
use sulis.Postgres.Equivalence.Recovery.{recovery_calls-agree}

-- a method of one of the seven stores, with its arguments
pub data StoreCall : Type 0 where
  users : Users.Call → StoreCall
  sessions : Sessions.Call → StoreCall
  tokens : Tokens.Call → StoreCall
  passkeys : Passkeys.Call → StoreCall
  challenges : ChallengeCall → StoreCall
  totp : Totp.Call → StoreCall
  recovery : Recovery.Call → StoreCall

-- what it returns
abbrev pub Returned : StoreCall → Type 0
Returned (users call) = Users.Returned call
Returned (sessions call) = Sessions.Returned call
Returned (tokens call) = Tokens.Returned call
Returned (passkeys call) = Passkeys.Returned call
Returned (challenges call) = Given call
Returned (totp call) = Totp.Returned call
Returned (recovery call) = Recovery.Returned call

-- the tables that it works on
abbrev pub Tables : StoreCall → Type 0
Tables (users call) = List User
Tables (sessions call) = List Session
Tables (tokens call) = List Token
Tables (passkeys call) = List PasskeyCredential
Tables (challenges call) = List Challenge
Tables (totp call) = TotpTables
Tables (recovery call) = List CodeRow

abbrev pub call_sql : (call : StoreCall) → Exec (Db (Tables call)) (Returned call)
call_sql (users call) = Users.run_sql call
call_sql (sessions call) = Sessions.run_sql call
call_sql (tokens call) = Tokens.run_sql call
call_sql (passkeys call) = Passkeys.run_sql call
call_sql (challenges call) = challenge_sql call
call_sql (totp call) = Totp.run_sql call
call_sql (recovery call) = Recovery.run_sql call

abbrev pub call_pg : Host → (call : StoreCall) → Pg (Tables call) (Returned call)
call_pg host (users call) = Users.run_pg host call
call_pg host (sessions call) = Sessions.run_pg call
call_pg host (tokens call) = Tokens.run_pg call
call_pg host (passkeys call) = Passkeys.run_pg host call
call_pg host (challenges call) = challenge_pg call
call_pg host (totp call) = Totp.run_pg host call
call_pg host (recovery call) = Recovery.run_pg host call

-- Where addresses matter, lower of the database and the folding of NOCASE agree on them.
abbrev pub IsAgreed : Host → (call : StoreCall) → Tables call → Type 0
IsAgreed host (users call) rows = IsFoldedCall host call × All (HasFolded host) rows
IsAgreed host _ rows = Unit

-- As long as the driver reports no failure, and lower of the database and the folding of NOCASE agree on
-- the addresses of the users, every method of every PostgreSQL store answers what its SQLite counterpart
-- answers, up to the texts of its errors and the codes of the driver, and leaves the same rows.
pub store_calls-agree :
    (host : Host) (call : StoreCall) (tables : Tables call)
    → IsAgreed host call tables
    → ◌≡◌ {A = Result (Returned call) × Tables call}
        (seen_pg (call_pg host call) tables)
        (seen_sql (call_sql call) tables)
store_calls-agree host (users call) rows (f, fs) = user_calls-agree host call rows f fs
store_calls-agree host (sessions call) rows h = session_calls-agree call rows
store_calls-agree host (tokens call) rows h = token_calls-agree call rows
store_calls-agree host (passkeys call) rows h = passkey_calls-agree host call rows
store_calls-agree host (challenges call) rows h = challenge_calls-agree call rows
store_calls-agree host (totp call) tables h = totp_calls-agree host call tables
store_calls-agree host (recovery call) rows h = recovery_calls-agree host call rows
