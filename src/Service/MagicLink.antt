-- ===== src/Service/MagicLink.antt =====
-- magiclink.go: passwordless login by a mailed token, bound to the browser that asked for it.
pub mod Binding
use sulis.Base.{
  ℕ, ◌+◌, Bool, true, false, not, ◌&&◌, ◌||◌, Option, none, some, List, [], ◌∷◌, ◌++◌, ◌==◌,
  if◌then◌else◌,
}
use sulis.Base.Text.{Text, codes, text_eq, is_empty}
use sulis.Error.{
  Error, Result, ok, err, errors_is, user_not_found, user_already_exists, token_invalid,
}
use sulis.Exec.{Exec, pure, throw, fail, lift, attempt, total, refuse_if, ◌>>=◌, ◌>>◌}
use sulis.Model.{
  User, Token, AuthMethod, LoginResult, RequestInfo, TokenPurpose, no_request, nil_id,
}
use sulis.Model.Event.{EventKind, Reason, reason, token_reason}
use sulis.Service.{Sulis}
use sulis.Service.Guards.{event, now, emit, allow, allow_ip, normalize_email}
use sulis.Service.Tokens.{wrapping, generate_raw_token, consume_token}
use sulis.Service.Login.{complete_first_factor}
use sulis.Service.Email.{stamp_email_verified}

abbrev pub magic_link_nonce_bytes : ℕ
magic_link_nonce_bytes = 16

module _ {W : Type 0} (s : Sulis W) where
  -- the raw token and the binding nonce
  unfoldable pub issue_magic_link_token : ℕ → Text → Exec W (Text × Text)
  issue_magic_link_token user_id email = do
    generated ←
        wrapping (codes "sulis: generating token") (generate_raw_token s s.cfg.reset_token_bytes)
    nonce ←
        if s.cfg.magic_link_binding
        then wrapping (codes "sulis: generating binding nonce")
            (generate_raw_token s magic_link_nonce_bytes)
        else pure ([], [])
    t ← now s
    id ← total s.platform.new_id
    s.tokens.create_token (record {
      id = id;
      user_id = user_id;
      token_hash = generated.1;
      purpose = TokenPurpose.magic_link;
      expires_at = t + s.cfg.magic_link_duration;
      created_at = t;
      used = false;
      email = email;
      nonce_hash = nonce.1;
    })
    emit s (event EventKind.magic_link_created user_id nil_id no_request [])
    pure (generated.0, nonce.0)

  unfoldable pub create_magic_link_token : Text → RequestInfo → Exec W (Text × Text)
  unfolding issue_magic_link_token
  create_magic_link_token raw_email ri = do
    email ← lift (normalize_email s.platform.parse_address raw_email)
    allow_ip s (codes "magic:") ri
    allow s (codes "magic:" ++ email) ri
    found ← attempt (s.users.get_user_by_email email)
    elim found [
      | ok user ↦ issue_magic_link_token user.id []
      | err e ↦ if errors_is e user_not_found then issue_magic_link_token nil_id email else throw e
    ]

  unfoldable pub get_or_create_passwordless_user : Text → Exec W User
  get_or_create_passwordless_user email = do
    found ← attempt (s.users.get_user_by_email email)
    elim found [
      | ok user ↦ pure user
      | err e ↦ if not (errors_is e user_not_found) then throw e else do
        t ← now s
        id ← total s.platform.new_id
        let user =
            let r : User = record {
              id = id;
              email = email;
              password_hash = [];
              created_at = t;
              updated_at = t;
              metadata = none;
              email_verified_at = none;
              pending_email = [];
              disabled_at = none;
              disabled_reason = [];
              locked_until = none;
              failed_login_attempts = 0;
              version = 0;
            } in
            r
        created ← attempt (s.users.create_user user)
        elim created [
          | ok _ ↦ pure user
          | err e' ↦
              if errors_is e' user_already_exists then s.users.get_user_by_email email else throw e'
        ]
    ]

  unfoldable pub emit_magic_link_rejected : ℕ → RequestInfo → Reason → Exec W Unit
  emit_magic_link_rejected user_id ri why =
      emit s (event EventKind.magic_link_rejected user_id nil_id ri (reason why ∷ []))

  -- whether the nonce is the one that the token is bound to
  unfoldable pub is_bound : Token → Text → Bool
  is_bound token nonce =
      is_empty token.nonce_hash
      || (not (is_empty nonce) && text_eq (s.platform.sha256_hex nonce) token.nonce_hash)

  -- the user whom a consumed token is for
  unfoldable pub link_user : Token → Exec W User
  link_user token =
      if token.user_id == nil_id
      then get_or_create_passwordless_user token.email
      else s.users.get_user_by_id token.user_id

  -- the login that follows a token that was consumed and is bound to the caller
  unfoldable pub redeem_bound : Token → RequestInfo → Exec W LoginResult
  redeem_bound token ri = do
    user ← link_user token
    emit s (event EventKind.magic_link_redeemed user.id nil_id ri [])
    verified ← stamp_email_verified s user
    complete_first_factor s verified AuthMethod.magic_link ri

  unfoldable pub redeem_magic_link : Text → Text → RequestInfo → Exec W LoginResult
  unfolding emit_magic_link_rejected
  redeem_magic_link raw_token binding_nonce ri = do
    consumed ← attempt (consume_token s raw_token TokenPurpose.magic_link)
    elim consumed [
      | err e ↦ do emit_magic_link_rejected nil_id ri (token_reason e); throw e
      | ok token ↦ if is_bound token binding_nonce then redeem_bound token ri else do
        emit_magic_link_rejected token.user_id ri Reason.binding_mismatch
        fail token_invalid
    ]
