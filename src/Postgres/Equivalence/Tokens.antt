-- ===== src/Postgres/Equivalence/Tokens.antt =====
-- The methods of store/sql/postgres/token.go beside those of store/sql/sqlite/token.go.
use sulis.Base.{ℕ, ◌≡◌, List, arith}
use sulis.Base.Text.{Text}
use sulis.Error.{Result}
use sulis.Exec.{Exec}
use sulis.Model.{Token, TokenPurpose}
use sulis.Sqlite.{Db, outcome, in_transaction}
use sulis.Sqlite.Tokens
use sulis.Postgres.{Pg, transaction}
use sulis.Postgres.Tokens as PgTokens
use sulis.Postgres.Equivalence.{seen_sql, seen_pg, reason}

pub data Call : Type 0 where
  creates : Token → Call
  consumes : Text → TokenPurpose → Call
  deletes_expired : ℕ → Call
  deletes_all : ℕ → TokenPurpose → Call

abbrev pub Returned : Call → Type 0
Returned (consumes hash purpose) = Token
Returned _ = Unit

abbrev pub run_sql : (call : Call) → Exec (Db (List Token)) (Returned call)
run_sql (creates token) = Tokens.create_token token
run_sql (consumes hash purpose) = Tokens.consume_token hash purpose
run_sql (deletes_expired now) = Tokens.delete_expired_tokens now
run_sql (deletes_all user_id purpose) = Tokens.delete_user_tokens user_id purpose

abbrev pub run_pg : (call : Call) → Pg (List Token) (Returned call)
run_pg (creates token) = PgTokens.create_token token
run_pg (consumes hash purpose) = PgTokens.consume_token hash purpose
run_pg (deletes_expired now) = PgTokens.delete_expired_tokens now
run_pg (deletes_all user_id purpose) = PgTokens.delete_user_tokens user_id purpose

-- Each method answers the same and leaves the same rows, as long as the driver reports no failure.
pub token_calls-agree :
    (call : Call) (rows : List Token)
    → ◌≡◌ {A = Result (Returned call) × List Token}
        (seen_pg (run_pg call) rows)
        (seen_sql (run_sql call) rows)
unfolding outcome reason in_transaction transaction Tokens.create_token Tokens.consume_token
    Tokens.consume_statement Tokens.refused_consume Tokens.delete_expired_tokens
    Tokens.delete_user_tokens PgTokens.create_token PgTokens.consume_token
    PgTokens.consume_statement PgTokens.refused_consume PgTokens.delete_expired_tokens
    PgTokens.delete_user_tokens
token_calls-agree (creates token) rows = ground arith
token_calls-agree (consumes hash purpose) rows = ground arith
token_calls-agree (deletes_expired now) rows = ground arith
token_calls-agree (deletes_all user_id purpose) rows = ground arith
