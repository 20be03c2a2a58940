-- ===== src/Service/Tokens.antt =====
-- generateRawToken of token.go; createTokenForUser, createTokenForUserWithEmail and consumeToken of
-- sulis.go.
use sulis.Base.{ℕ, ◌+◌, false, [], ltb, if◌then◌else◌}
use sulis.Base.Text.{Text, codes}
use sulis.Error.{ok, err, wrapped, errors_is, token_not_found, token_invalid, token_expired}
use sulis.Exec.{Exec, pure, throw, fail, attempt, total, refuse_if, ◌>>=◌, ◌>>◌}
use sulis.Model.{Token, TokenPurpose}
use sulis.Service.{Sulis}
use sulis.Service.Guards.{now}

-- fmt.Errorf("…: %w", err) around the error of a call
abbrev pub wrapping : {W A : Type 0} → Text → Exec W A → Exec W A
wrapping message m = do r ← attempt m; elim r [ ok a ↦ pure a | err e ↦ throw (wrapped message e) ]

module _ {W : Type 0} (s : Sulis W) where
  -- the raw token and its hash
  unfoldable pub generate_raw_token : ℕ → Exec W (Text × Text)
  generate_raw_token n_bytes = do
    raw ← s.platform.random_hex n_bytes
    pure (raw, s.platform.sha256_hex raw)

  unfoldable pub create_token_for_user_with_email : ℕ → Text → TokenPurpose → ℕ → Exec W Text
  unfolding generate_raw_token
  create_token_for_user_with_email user_id email purpose ttl = do
    generated ←
        wrapping (codes "sulis: generating token") (generate_raw_token s.cfg.reset_token_bytes)
    t ← now s
    id ← total s.platform.new_id
    s.tokens.create_token (record {
      id = id;
      user_id = user_id;
      token_hash = generated.1;
      purpose = purpose;
      expires_at = t + ttl;
      created_at = t;
      used = false;
      email = email;
      nonce_hash = [];
    })
    pure generated.0

  unfoldable pub create_token_for_user : ℕ → TokenPurpose → ℕ → Exec W Text
  unfolding create_token_for_user_with_email
  create_token_for_user user_id purpose ttl =
      create_token_for_user_with_email user_id [] purpose ttl

  unfoldable pub consume_token : Text → TokenPurpose → Exec W Token
  consume_token raw_token purpose = do
    consumed ← attempt (s.tokens.consume_token (s.platform.sha256_hex raw_token) purpose)
    elim consumed [
      | err e ↦ if errors_is e token_not_found then fail token_invalid else throw e
      | ok token ↦ do t ← now s; refuse_if (ltb token.expires_at t) token_expired; pure token
    ]
