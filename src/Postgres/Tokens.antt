-- ===== src/Postgres/Tokens.antt =====
-- store/sql/postgres/token.go. The current time of DeleteExpiredTokens is its argument.
use sulis.Base.{ℕ, Option, none, some, List, [], ◌∷◌, ◌++◌}
use sulis.Base.Text.{Text, codes}
use sulis.Error.{token_not_found, token_already_used}
use sulis.Exec.{pure, fail, ◌>>=◌, ◌>>◌}
use sulis.Model.{Token, TokenPurpose}
use sulis.Service.Tokens.{wrapping}
use sulis.Sqlite.{any, select_row, update_rows, delete_rows, outcome, read, write}
use sulis.Sqlite.Tokens.{bars_insert, matches, matches_unused, use_token, is_expired, issued_to}
use sulis.Postgres.{Pg, query, execute, execute_unless, on_rows, transaction}

unfoldable pub create_token : Token → Pg (List Token) Unit
create_token token =
    wrapping (codes "sulis/postgres: creating a token")
      (execute_unless (any (bars_insert token)) (λ rows. rows ++ (token ∷ [])))

-- UPDATE … RETURNING: the row after the update, if there is one
unfoldable pub consume_statement : Text → TokenPurpose → Pg (List Token) (Option Token)
consume_statement hash purpose = do
  outcome
  row ← read λ t. select_row (matches_unused hash purpose) t.rows
  write (on_rows (update_rows (matches_unused hash purpose) use_token))
  pure (elim row [ none ↦ none | some t ↦ some (use_token t) ])

-- why no row was consumed
unfoldable pub refused_consume : Text → TokenPurpose → Pg (List Token) Token
refused_consume hash purpose = do
  row ←
      wrapping (codes "sulis/postgres: consuming a token")
        (query (select_row (matches hash purpose)))
  elim row [ none ↦ fail token_not_found | some t ↦ fail token_already_used ]

unfoldable pub consume_token : Text → TokenPurpose → Pg (List Token) Token
consume_token hash purpose =
    transaction (codes "sulis/postgres: consuming a token")
      (codes "sulis/postgres: committing a token consumption")
      (do
        row ← wrapping (codes "sulis/postgres: reading a token") (consume_statement hash purpose)
        elim row [ none ↦ refused_consume hash purpose | some t ↦ pure t ])

unfoldable pub delete_expired_tokens : ℕ → Pg (List Token) Unit
delete_expired_tokens now =
    wrapping (codes "sulis/postgres: deleting expired tokens")
      (execute (delete_rows (is_expired now)))

unfoldable pub delete_user_tokens : ℕ → TokenPurpose → Pg (List Token) Unit
delete_user_tokens user_id purpose =
    wrapping (codes "sulis/postgres: deleting a user's tokens")
      (execute (delete_rows (issued_to user_id purpose)))
