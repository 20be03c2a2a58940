-- ===== src/Service/TwoFactor.antt =====
-- twofactor.go: the pending login between the first factor and the second.
pub mod Gates
use sulis.Base.{ℕ, Bool, true, false, not, Option, none, some, List, [], ◌∷◌, ◌==◌, if◌then◌else◌}
use sulis.Base.Text.{Text}
use sulis.Error.{Error, Result, ok, err, token_invalid}
use sulis.Exec.{Exec, pure, throw, fail, attempt, ◌>>=◌, ◌>>◌}
use sulis.Model.{AuthMethod, LoginResult, RequestInfo, TokenPurpose, no_request, nil_id}
use sulis.Model.Event.{EventKind, Reason, gate_reason, token_reason}
use sulis.Service.{Sulis}
use sulis.Service.Guards.{event, now, emit, account_status, require_verified_email}
use sulis.Service.Tokens.{create_token_for_user, consume_token}
use sulis.Service.Sessions.{create_session}
use sulis.Service.Login.{with_reason, reporting}

module _ {W : Type 0} (s : Sulis W) where
  unfoldable pub create_two_factor_token : ℕ → Exec W Text
  create_two_factor_token user_id = do
    user ← s.users.get_user_by_id user_id
    require_verified_email s user
    raw ← create_token_for_user s user_id TokenPurpose.two_factor s.cfg.two_factor_token_duration
    emit s (event EventKind.second_factor_demanded user_id nil_id no_request [])
    pure raw

  unfoldable pub emit_second_factor_failed : ℕ → RequestInfo → Option Reason → Exec W Unit
  emit_second_factor_failed user_id ri why =
      emit s (event EventKind.second_factor_failed user_id nil_id ri (with_reason [] why))

  unfoldable pub complete_two_factor : ℕ → Text → RequestInfo → Exec W LoginResult
  unfolding emit_second_factor_failed
  complete_two_factor user_id raw_token ri = do
    consumed ← attempt (consume_token s raw_token TokenPurpose.two_factor)
    elim consumed [
      | err e ↦ do emit_second_factor_failed nil_id ri (some (token_reason e)); throw e
      | ok token ↦
          if not (token.user_id == user_id)
          then (do
            emit_second_factor_failed token.user_id ri (some Reason.user_mismatch)
            fail token_invalid)
          else do
            user ← s.users.get_user_by_id token.user_id
            let refused = λ (e : Error). emit_second_factor_failed user.id ri (gate_reason e)
            reporting s refused (account_status s user)
            reporting s refused (require_verified_email s user)
            emit s (event EventKind.second_factor_completed user.id nil_id ri [])
            t ← now s
            issued ← create_session s user.id AuthMethod.two_factor t ri
            let result =
                let r : LoginResult = record {
                  user = user;
                  session = some issued.0;
                  session_token = issued.1;
                  needs_second_factor = false;
                  pending_token = [];
                } in
                r
            pure result
    ]
