-- ===== src/Memstore/Tokens.antt =====
-- memstore/token.go. The current time of DeleteExpiredTokens is its argument.
pub mod SingleUse
use sulis.Base.{ℕ, Bool, true, false, ◌&&◌, not, Option, none, some, ltb, ◌==◌, if◌then◌else◌}
use sulis.Base.Text.{Text, text_eq}
use sulis.Base.Map.{Map, insert, remove_if, find}
use sulis.Error.{token_not_found, token_already_used}
use sulis.Exec.{Exec, pure, fail}
use sulis.Model.{Token, TokenPurpose, purpose_code, nil_id}

unfoldable pub create_token : Token → Exec (Map Token) Unit
create_token token tokens = pure tt (insert token.id token tokens)

abbrev pub matches : Text → TokenPurpose → ℕ → Token → Bool
matches hash purpose id t =
    text_eq t.token_hash hash && purpose_code t.purpose == purpose_code purpose

unfoldable pub consume_token : Text → TokenPurpose → Exec (Map Token) Token
consume_token hash purpose tokens = elim (find (matches hash purpose) tokens) [
  | none ↦ fail token_not_found tokens
  | some (id, t) ↦
      if t.used
      then fail token_already_used tokens
      else pure (record t { used = true }) (insert id (record t { used = true }) tokens)
]

abbrev pub is_expired : ℕ → ℕ → Token → Bool
is_expired now id t = ltb t.expires_at now

unfoldable pub delete_expired_tokens : ℕ → Exec (Map Token) Unit
delete_expired_tokens now tokens = pure tt (remove_if (is_expired now) tokens)

abbrev pub issued_to : ℕ → TokenPurpose → ℕ → Token → Bool
issued_to user_id purpose id t =
    t.user_id == user_id && purpose_code t.purpose == purpose_code purpose

unfoldable pub delete_user_tokens : ℕ → TokenPurpose → Exec (Map Token) Unit
delete_user_tokens user_id purpose tokens =
    if user_id == nil_id
    then pure tt tokens
    else pure tt (remove_if (issued_to user_id purpose) tokens)
