-- ===== src/Sqlite/Tokens.antt =====
-- store/sql/sqlite/token.go and the table tokens of schema.sql: the column token_hash is unique, and
-- the column user_id of a token of nobody is NULL, which equals nothing. The current time of
-- DeleteExpiredTokens is its argument.
pub mod Refinement
use sulis.Base.{
  ℕ, Bool, true, false, ◌&&◌, ◌||◌, not, Option, none, some, List, [], ◌∷◌, ◌++◌, ltb, ◌==◌,
  if◌then◌else◌,
}
use sulis.Base.Text.{Text, codes, text_eq}
use sulis.Error.{ok, err, token_not_found, token_already_used}
use sulis.Exec.{Exec, pure, throw, fail, attempt, ◌>>=◌, ◌>>◌}
use sulis.Model.{Token, TokenPurpose, purpose_code, nil_id}
use sulis.Service.Tokens.{wrapping}
use sulis.Sqlite.{
  Db, any, select_row, update_rows, delete_rows, query, execute, execute_unless, in_transaction,
  outcome, read, write,
}

-- a row that stands in the way of a new row
abbrev pub bars_insert : Token → Token → Bool
bars_insert token row = row.id == token.id || text_eq row.token_hash token.token_hash

unfoldable pub create_token : Token → Exec (Db (List Token)) Unit
create_token token =
    wrapping (codes "sulis/sqlite: creating a token")
      (execute_unless (any (bars_insert token)) (λ rows. rows ++ (token ∷ [])))

abbrev pub matches : Text → TokenPurpose → Token → Bool
matches hash purpose row =
    text_eq row.token_hash hash && purpose_code row.purpose == purpose_code purpose

abbrev pub matches_unused : Text → TokenPurpose → Token → Bool
matches_unused hash purpose row = matches hash purpose row && not row.used

abbrev pub use_token : Token → Token
use_token row = record row { used = true }

-- UPDATE … RETURNING: the row after the update, if there is one
unfoldable pub consume_statement : Text → TokenPurpose → Exec (Db (List Token)) (Option Token)
consume_statement hash purpose = do
  outcome
  row ← read (select_row (matches_unused hash purpose))
  write (update_rows (matches_unused hash purpose) use_token)
  pure (elim row [ none ↦ none | some t ↦ some (use_token t) ])

-- why no row was consumed
unfoldable pub refused_consume : Text → TokenPurpose → Exec (Db (List Token)) Token
refused_consume hash purpose = do
  row ←
      wrapping (codes "sulis/sqlite: consuming a token") (query (select_row (matches hash purpose)))
  elim row [ none ↦ fail token_not_found | some t ↦ fail token_already_used ]

unfoldable pub consume_token : Text → TokenPurpose → Exec (Db (List Token)) Token
consume_token hash purpose =
    in_transaction (codes "sulis/sqlite: consuming a token")
      (codes "sulis/sqlite: committing a token consumption")
      (do
        row ← wrapping (codes "sulis/sqlite: reading a token") (consume_statement hash purpose)
        elim row [ none ↦ refused_consume hash purpose | some t ↦ pure t ])

abbrev pub is_expired : ℕ → Token → Bool
is_expired now row = ltb row.expires_at now

unfoldable pub delete_expired_tokens : ℕ → Exec (Db (List Token)) Unit
delete_expired_tokens now =
    wrapping (codes "sulis/sqlite: deleting expired tokens")
      (execute (delete_rows (is_expired now)))

abbrev pub issued_to : ℕ → TokenPurpose → Token → Bool
issued_to user_id purpose row =
    not (row.user_id == nil_id)
    && (row.user_id == user_id && purpose_code row.purpose == purpose_code purpose)

unfoldable pub delete_user_tokens : ℕ → TokenPurpose → Exec (Db (List Token)) Unit
delete_user_tokens user_id purpose =
    wrapping (codes "sulis/sqlite: deleting a user's tokens")
      (execute (delete_rows (issued_to user_id purpose)))
