-- ===== src/Service/Login.antt =====
-- Register, Login, VerifyPassword, rehashPassword, emitLoginFailed and emitRehashFailed of sulis.go,
-- and completeFirstFactor of issue.go.
pub mod Gates
use sulis.Base.{
  ℕ, Bool, true, false, ◌&&◌, ◌||◌, not, Option, none, some, List, [], ◌∷◌, ltb, ◌==◌,
  if◌then◌else◌, is_some,
}
use sulis.Base.Text.{Text, codes, text_eq, is_empty}
use sulis.Base.{◌++◌}
use sulis.Error.{
  Error, Result, ok, err, wrapped, errors_is, user_not_found, invalid_credentials,
  rehash_password_changed,
}
use sulis.Exec.{Exec, pure, throw, fail, lift, attempt, total, refuse_if, ◌>>=◌, ◌>>◌}
use sulis.Model.{User, Session, AuthMethod, LoginResult, RequestInfo, TokenPurpose, nil_id}
use sulis.Model.Event.{Event, EventKind, Metadata, Reason, reason, method, gate_reason}
use sulis.Service.{Sulis}
use sulis.Service.Guards.{
  event, now, emit, allow, allow_ip, normalize_email, check_password_policy, account_status,
  require_verified_email,
}
use sulis.Service.Users.{update_user_with_retry}
use sulis.Service.Tokens.{wrapping, create_token_for_user}
use sulis.Service.Sessions.{create_session}
use sulis.Service.Status.{record_failed_login, clear_failed_logins}

-- the pairs of a refusal: the reason is left out where the refusal has none
abbrev pub with_reason : List Metadata → Option Reason → List Metadata
with_reason pairs none = pairs
with_reason pairs (some why) = pairs ++ (reason why ∷ [])

module _ {W : Type 0} (s : Sulis W) where
  unfoldable pub emit_login_failed_via : ℕ → RequestInfo → AuthMethod → Option Reason → Exec W Unit
  emit_login_failed_via user_id ri how why =
      emit s (event EventKind.login_failed user_id nil_id ri (with_reason (method how ∷ []) why))

  unfoldable pub emit_login_failed : ℕ → RequestInfo → Option Reason → Exec W Unit
  unfolding emit_login_failed_via
  emit_login_failed user_id ri why = emit_login_failed_via user_id ri AuthMethod.password why

  -- a check, a refusal of which is reported before it is returned
  abbrev pub reporting : (Error → Exec W Unit) → Exec W Unit → Exec W Unit
  reporting report check = do
    checked ← attempt check
    elim checked [ ok _ ↦ pure tt | err e ↦ (report e >> throw e) ]

  unfoldable pub complete_first_factor : User → AuthMethod → RequestInfo → Exec W LoginResult
  unfolding emit_login_failed_via
  complete_first_factor user how ri = do
    let refused = λ (e : Error). emit_login_failed_via user.id ri how (gate_reason e)
    reporting refused (account_status s user)
    reporting refused (require_verified_email s user)
    has_second ← attempt (s.factors.has_second_factor user.id)
    elim has_second [
      | err e ↦ do
        emit_login_failed_via user.id ri how (some Reason.factor_check_failed)
        throw (wrapped (codes "sulis: checking second factor") e)
      | ok true ↦ do
        pending ←
            create_token_for_user s user.id TokenPurpose.two_factor s.cfg.two_factor_token_duration
        emit s (event EventKind.second_factor_demanded user.id nil_id ri (method how ∷ []))
        pure (record {
          user = user;
          session = none;
          session_token = [];
          needs_second_factor = true;
          pending_token = pending;
        })
      | ok false ↦ do
        t ← now s
        issued ← create_session s user.id how t ri
        pure (record {
          user = user;
          session = some issued.0;
          session_token = issued.1;
          needs_second_factor = false;
          pending_token = [];
        })
    ]

  unfoldable pub emit_rehash_failed : ℕ → RequestInfo → Reason → Exec W Unit
  emit_rehash_failed user_id ri why =
      emit s (event EventKind.password_rehash_failed user_id nil_id ri (reason why ∷ []))

  -- the write of an upgraded hash, unless the row no longer has the hash that was verified
  abbrev pub replace_hash : Text → Text → ℕ → User → Exec W (User × Unit {0})
  replace_hash verified_hash new_hash t u = do
    refuse_if (not (text_eq u.password_hash verified_hash)) rehash_password_changed
    pure (record u { password_hash = new_hash; updated_at = t }, tt)

  unfoldable pub rehash_password : User → Text → RequestInfo → Exec W Unit
  unfolding emit_rehash_failed
  rehash_password user password ri = do
    hashed ← attempt (s.hasher.hash_password password)
    elim hashed [
      | err _ ↦ emit_rehash_failed user.id ri Reason.hash_failed
      | ok new_hash ↦ do
        t ← now s
        written ←
            attempt (update_user_with_retry s user.id (replace_hash user.password_hash new_hash t))
        elim written [
          | ok _ ↦ emit s (event EventKind.password_rehashed user.id nil_id ri [])
          | err e ↦ emit_rehash_failed user.id ri (
              if errors_is e rehash_password_changed
              then Reason.password_changed
              else Reason.store_failed)
        ]
    ]

  -- what follows a password that did not match
  unfoldable pub wrong_password : User → RequestInfo → Exec W User
  unfolding emit_login_failed
  wrong_password user ri = do
    recorded ← attempt (
        if ltb 0 s.cfg.failure_lockout_threshold then record_failed_login s user.id ri else pure tt)
    emit_login_failed user.id ri (some Reason.wrong_password)
    lift recorded
    fail invalid_credentials

  -- the upgrade of a stored hash that is weak, or that only its legacy form matched
  unfoldable pub upgrade_hash : User → Text → Bool → RequestInfo → Event → Exec W Unit
  unfolding rehash_password
  upgrade_hash user password legacy ri matched = do
    if legacy then emit s matched else pure tt
    if legacy || s.hasher.needs_rehash user.password_hash
        then rehash_password user password ri
        else pure tt

  -- what follows a password that matched
  unfoldable pub right_password : User → Text → Bool → RequestInfo → Exec W User
  unfolding emit_login_failed
  right_password user password legacy ri = do
    upgrade_hash user password legacy ri
        (event EventKind.password_legacy_form_matched user.id nil_id ri [])
    reporting (λ e. emit_login_failed user.id ri (gate_reason e)) (account_status s user)
    if ltb 0 s.cfg.failure_lockout_threshold
          && (not (user.failed_login_attempts == 0) || is_some user.locked_until)
        then clear_failed_logins s user.id ri
        else pure tt
    emit s (event EventKind.login_succeeded user.id nil_id ri (method AuthMethod.password ∷ []))
    pure user

  -- the comparison of VerifyPassword, for a user that was found
  unfoldable pub check_password : User → Text → RequestInfo → Exec W User
  unfolding emit_login_failed
  check_password user password ri =
      if is_empty user.password_hash
      then (do emit_login_failed user.id ri (some Reason.no_password); fail invalid_credentials)
      else (do
        verdict ←
            wrapping (codes "sulis: verifying password")
              (lift (s.hasher.verify_password password user.password_hash))
        if verdict.0 then right_password user password verdict.1 ri else wrong_password user ri)

  -- what VerifyPassword makes of the store's answer
  unfoldable pub judge : Result User → Text → RequestInfo → Exec W User
  unfolding emit_login_failed
  judge (ok user) password ri = check_password user password ri
  judge (err e) password ri =
      if errors_is e user_not_found
      then (do emit_login_failed nil_id ri (some Reason.user_not_found); fail invalid_credentials)
      else throw e

  unfoldable pub verify_password : Text → Text → RequestInfo → Exec W User
  verify_password raw_email password ri = do
    email ← lift (normalize_email s.platform.parse_address raw_email)
    allow_ip s (codes "password:") ri
    allow s (codes "password:" ++ email) ri
    found ← attempt (s.users.get_user_by_email email)
    judge found password ri

  unfoldable pub login : Text → Text → RequestInfo → Exec W LoginResult
  login email password ri = do
    user ← verify_password email password ri
    complete_first_factor user AuthMethod.password ri

  unfoldable pub register : Text → Text → RequestInfo → Exec W (User × Session × Text)
  register raw_email password ri = do
    allow_ip s (codes "register:") ri
    email ← lift (normalize_email s.platform.parse_address raw_email)
    check_password_policy s password
    hash ← wrapping (codes "sulis: hashing password") (s.hasher.hash_password password)
    t ← now s
    id ← total s.platform.new_id
    let user =
        let r : User = record {
          id = id;
          email = email;
          password_hash = hash;
          created_at = t;
          updated_at = t;
          metadata = none;
          email_verified_at = none;
          pending_email = [];
          disabled_at = none;
          disabled_reason = [];
          locked_until = none;
          failed_login_attempts = 0;
          version = 0;
        } in
        r
    s.users.create_user user
    emit s (event EventKind.account_registered user.id nil_id ri [])
    issued ← create_session s user.id AuthMethod.password t ri
    pure (user, issued.0, issued.1)
