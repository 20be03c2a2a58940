-- ===== src/Postgres/Equivalence/Sessions.antt =====
-- The methods of store/sql/postgres/session.go beside those of store/sql/sqlite/session.go.
use sulis.Base.{ℕ, ◌≡◌, List, arith, Option}
use sulis.Base.Text.{Text}
use sulis.Error.{Result}
use sulis.Exec.{Exec}
use sulis.Model.{Session}
use sulis.Sqlite
use sulis.Sqlite.{Db, outcome}
use sulis.Sqlite.Sessions
use sulis.Postgres
use sulis.Postgres.{Pg}
use sulis.Postgres.Sessions as PgSessions
use sulis.Postgres.Equivalence.{seen_sql, seen_pg, reason}

pub data Call : Type 0 where
  creates : Session → Call
  gets : Text → Call
  lists deletes_all cleans : ℕ → Call
  deletes deletes_others authenticates : ℕ → ℕ → Call
  touches : ℕ → ℕ → Option ℕ → Call

abbrev pub Returned : Call → Type 0
Returned (gets hash) = Session
Returned (lists user_id) = List Session
Returned _ = Unit

abbrev pub run_sql : (call : Call) → Exec (Db (List Session)) (Returned call)
run_sql (creates session) = Sessions.create_session session
run_sql (gets hash) = Sessions.get_session_by_token_hash hash
run_sql (lists user_id) = Sessions.list_user_sessions user_id
run_sql (deletes user_id id) = Sessions.delete_session user_id id
run_sql (deletes_all user_id) = Sessions.delete_user_sessions user_id
run_sql (deletes_others user_id keep) = Sessions.delete_user_sessions_except user_id keep
run_sql (cleans now) = Sessions.clean_expired now
run_sql (authenticates id at) = Sessions.update_authenticated_at id at
run_sql (touches id last_seen idle_expires) = Sessions.touch_session id last_seen idle_expires

abbrev pub run_pg : (call : Call) → Pg (List Session) (Returned call)
run_pg (creates session) = PgSessions.create_session session
run_pg (gets hash) = PgSessions.get_session_by_token_hash hash
run_pg (lists user_id) = PgSessions.list_user_sessions user_id
run_pg (deletes user_id id) = PgSessions.delete_session user_id id
run_pg (deletes_all user_id) = PgSessions.delete_user_sessions user_id
run_pg (deletes_others user_id keep) = PgSessions.delete_user_sessions_except user_id keep
run_pg (cleans now) = PgSessions.clean_expired now
run_pg (authenticates id at) = PgSessions.update_authenticated_at id at
run_pg (touches id last_seen idle_expires) = PgSessions.touch_session id last_seen idle_expires

-- Each method answers the same and leaves the same rows, as long as the driver reports no failure.
pub session_calls-agree :
    (call : Call) (rows : List Session)
    → ◌≡◌ {A = Result (Returned call) × List Session}
        (seen_pg (run_pg call) rows)
        (seen_sql (run_sql call) rows)
unfolding outcome reason Sqlite.affected Postgres.affected Sessions.create_session
    Sessions.get_session_by_token_hash Sessions.list_user_sessions Sessions.delete_session
    Sessions.delete_user_sessions Sessions.delete_user_sessions_except Sessions.clean_expired
    Sessions.update_authenticated_at Sessions.touch_session PgSessions.create_session
    PgSessions.get_session_by_token_hash PgSessions.list_user_sessions PgSessions.delete_session
    PgSessions.delete_user_sessions PgSessions.delete_user_sessions_except PgSessions.clean_expired
    PgSessions.update_authenticated_at PgSessions.touch_session
session_calls-agree (creates session) rows = ground arith
session_calls-agree (gets hash) rows = ground arith
session_calls-agree (lists user_id) rows = ground arith
session_calls-agree (deletes user_id id) rows = ground arith
session_calls-agree (deletes_all user_id) rows = ground arith
session_calls-agree (deletes_others user_id keep) rows = ground arith
session_calls-agree (cleans now) rows = ground arith
session_calls-agree (authenticates id at) rows = ground arith
session_calls-agree (touches id last_seen idle_expires) rows = ground arith
