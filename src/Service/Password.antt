-- ===== src/Service/Password.antt =====
-- setPassword, ChangePassword, SetInitialPassword, CreatePasswordResetToken, its strict form and
-- ResetPassword of sulis.go.
use sulis.Base.{ℕ, Bool, true, false, not, ◌&&◌, none, [], ◌++◌, if◌then◌else◌}
use sulis.Base.Text.{Text, codes, is_empty}
use sulis.Error.{ok, err, errors_is, user_not_found, invalid_credentials}
use sulis.Exec.{Exec, pure, throw, lift, attempt, refuse_if, ◌>>=◌, ◌>>◌}
use sulis.Model.{User, RequestInfo, TokenPurpose, no_request, nil_id}
use sulis.Model.Event.{EventKind}
use sulis.Service.{Sulis}
use sulis.Service.Guards.{event, now, emit, allow, allow_ip, normalize_email, check_password_policy}
use sulis.Service.Users.{update_user_with_retry}
use sulis.Service.Tokens.{wrapping, create_token_for_user, consume_token}
use sulis.Service.Sessions.{revoke_user_sessions}

-- the row with its new password: the lockout ends, and a disabled account stays disabled
abbrev pub with_password : Text → ℕ → User → User
with_password hash t u = record u {
  password_hash = hash;
  updated_at = t;
  failed_login_attempts = 0;
  locked_until = none;
}

module _ {W : Type 0} (s : Sulis W) where
  -- revoke the sessions, if so configured, and purge what was minted for the old password
  unfoldable pub purge_credentials : ℕ → Exec W Unit
  purge_credentials user_id = do
    if s.cfg.revoke_sessions_on_password_change then revoke_user_sessions s user_id else pure tt
    s.tokens.delete_user_tokens user_id TokenPurpose.password_reset
    s.tokens.delete_user_tokens user_id TokenPurpose.two_factor
    s.tokens.delete_user_tokens user_id TokenPurpose.magic_link

  unfoldable pub set_password : ℕ → Text → (User → Exec W Unit) → Exec W Unit
  set_password user_id new_password guard = do
    hash ← wrapping (codes "sulis: hashing new password") (s.hasher.hash_password new_password)
    t ← now s
    updated ←
        update_user_with_retry s {A = Unit {0}} user_id
          λ u. do guard u; pure (with_password hash t u, tt)
    purge_credentials updated.0.id

  -- the guard of ChangePassword
  unfoldable pub verify_old : Text → User → Exec W Unit
  verify_old old_password u = do
    refuse_if (is_empty u.password_hash) invalid_credentials
    verdict ←
        wrapping (codes "sulis: verifying old password")
          (lift (s.hasher.verify_password old_password u.password_hash))
    refuse_if (not verdict.0) invalid_credentials

  unfoldable pub change_password : ℕ → Text → Text → RequestInfo → Exec W Unit
  change_password user_id old_password new_password ri = do
    check_password_policy s new_password
    user ← s.users.get_user_by_id user_id
    allow_ip s (codes "password:") ri
    allow s (codes "password:" ++ user.email) ri
    set_password user.id new_password (verify_old old_password)
    emit s (event EventKind.password_changed user.id nil_id ri [])

  -- the guard of SetInitialPassword
  abbrev pub must_be_passwordless : User → Exec W Unit
  must_be_passwordless u = refuse_if (not (is_empty u.password_hash)) invalid_credentials

  unfoldable pub set_initial_password : ℕ → Text → Exec W Unit
  set_initial_password user_id new_password = do
    check_password_policy s new_password
    set_password user_id new_password must_be_passwordless
    emit s (event EventKind.password_set user_id nil_id no_request [])

  unfoldable pub create_password_reset_token_of : Text → RequestInfo → Bool → Exec W Text
  create_password_reset_token_of raw_email ri strict = do
    email ← lift (normalize_email s.platform.parse_address raw_email)
    allow_ip s (codes "reset:") ri
    allow s (codes "reset:" ++ email) ri
    found ← attempt (s.users.get_user_by_email email)
    elim found [
      | ok user ↦ do
        raw ← create_token_for_user s user.id TokenPurpose.password_reset s.cfg.token_duration
        emit s (event EventKind.password_reset_requested user.id nil_id ri [])
        pure raw
      | err e ↦
          if errors_is e user_not_found && not strict
          then (do
            -- the same generation and hashing work, discarded
            attempt (s.platform.random_hex s.cfg.reset_token_bytes)
            pure [])
          else throw e
    ]

  unfoldable pub create_password_reset_token : Text → RequestInfo → Exec W Text
  unfolding create_password_reset_token_of
  create_password_reset_token email ri = create_password_reset_token_of email ri false

  unfoldable pub create_password_reset_token_strict : Text → RequestInfo → Exec W Text
  unfolding create_password_reset_token_of
  create_password_reset_token_strict email ri = create_password_reset_token_of email ri true

  -- setPassword with a nil guard
  abbrev pub no_guard : User → Exec W Unit
  no_guard u = pure tt

  unfoldable pub reset_password : Text → Text → Exec W Unit
  reset_password raw_token new_password = do
    check_password_policy s new_password
    token ← consume_token s raw_token TokenPurpose.password_reset
    set_password token.user_id new_password no_guard
    emit s (event EventKind.password_reset token.user_id nil_id no_request [])
