-- ===== src/Service/Email.antt =====
-- emailverification.go and changeemail.go. A method that writes through its `*User` returns the user.
use sulis.Base.{ℕ, Bool, not, some, [], if◌then◌else◌, is_some}
use sulis.Base.Text.{Text, text_eq, is_empty}
use sulis.Error.{
  ok, err, errors_is, user_not_found, user_already_exists, token_invalid, already_verified,
}
use sulis.Exec.{Exec, pure, throw, fail, lift, attempt, refuse_if, ◌>>=◌, ◌>>◌}
use sulis.Model.{User, TokenPurpose, no_request, nil_id}
use sulis.Model.Event.{EventKind}
use sulis.Service.{Sulis}
use sulis.Service.Guards.{event, now, emit, normalize_email}
use sulis.Service.Users.{update_user_with_retry}
use sulis.Service.Tokens.{create_token_for_user_with_email, consume_token}
use sulis.Service.Sessions.{revoke_user_sessions}

module _ {W : Type 0} (s : Sulis W) where
  unfoldable pub create_email_verification_token : ℕ → Exec W Text
  create_email_verification_token user_id = do
    user ← s.users.get_user_by_id user_id
    create_token_for_user_with_email s user.id user.email TokenPurpose.email_verification
        s.cfg.email_verification_token_duration

  -- the first stamp of a row at time `t`, and whether the row had a password
  abbrev pub stamp : ℕ → User → Exec W (User × Bool)
  stamp t u = do
    refuse_if (is_some u.email_verified_at) already_verified
    pure (record u { email_verified_at = some t; updated_at = t }, not (is_empty u.password_hash))

  unfoldable pub stamp_email_verified : User → Exec W User
  stamp_email_verified user = if is_some user.email_verified_at then pure user else (do
    t ← now s
    stamped ← attempt (update_user_with_retry s user.id (stamp t))
    elim stamped [
      | ok updated ↦ do
        emit s (event EventKind.email_verified updated.0.id nil_id no_request [])
        if updated.1 then revoke_user_sessions s updated.0.id else pure tt
        pure updated.0
      | err e ↦ if errors_is e already_verified then s.users.get_user_by_id user.id else throw e
    ])

  unfoldable pub verify_email : Text → Exec W User
  unfolding stamp_email_verified
  verify_email raw_token = do
    token ← consume_token s raw_token TokenPurpose.email_verification
    user ← s.users.get_user_by_id token.user_id
    refuse_if (not (text_eq token.email user.email)) token_invalid
    stamp_email_verified user

  -- the check that no user has the address
  unfoldable pub require_free_email : Text → Exec W Unit
  require_free_email email = do
    found ← attempt (s.users.get_user_by_email email)
    elim found [
      | ok _ ↦ fail user_already_exists
      | err e ↦ if errors_is e user_not_found then pure tt else throw e
    ]

  unfoldable pub change_email : ℕ → Text → Exec W Text
  unfolding require_free_email
  change_email user_id raw_email = do
    new_email ← lift (normalize_email s.platform.parse_address raw_email)
    require_free_email new_email
    t ← now s
    update_user_with_retry s {A = Unit {0}} user_id
        λ u. pure (record u { pending_email = new_email; updated_at = t }, tt)
    raw ←
        create_token_for_user_with_email s user_id new_email TokenPurpose.email_change
          s.cfg.email_verification_token_duration
    emit s (event EventKind.email_change_staged user_id nil_id no_request [])
    pure raw

  -- the move of the staged address to the live one, at time `t`
  unfoldable pub confirm_pending : Text → ℕ → User → Exec W (User × Unit {0})
  unfolding require_free_email
  confirm_pending token_email t u = do
    refuse_if (not (text_eq token_email u.pending_email)) token_invalid
    require_free_email u.pending_email
    let changed = record u {
      email = u.pending_email;
      pending_email = [];
      email_verified_at = some t;
      updated_at = t;
    }
    pure (changed, tt)

  unfoldable pub confirm_email_change : Text → Exec W User
  unfolding confirm_pending
  confirm_email_change raw_token = do
    token ← consume_token s raw_token TokenPurpose.email_change
    t ← now s
    updated ← update_user_with_retry s token.user_id (confirm_pending token.email t)
    revoke_user_sessions s updated.0.id
    s.tokens.delete_user_tokens updated.0.id TokenPurpose.password_reset
    s.tokens.delete_user_tokens updated.0.id TokenPurpose.two_factor
    s.tokens.delete_user_tokens updated.0.id TokenPurpose.magic_link
    emit s (event EventKind.email_change_confirmed updated.0.id nil_id no_request [])
    pure updated.0
