-- ===== src/Service/StepUp.antt =====
-- stepup.go: the age of a session's authentication, and proving the password again. The session that
-- ReAuthenticate writes through its pointer is returned.
use sulis.Base.{ℕ, ◌+◌, Option, some, [], ◌++◌, ltb, if◌then◌else◌}
use sulis.Base.Text.{Text, codes, is_empty}
use sulis.Error.{reauth_required, invalid_credentials}
use sulis.Exec.{Exec, pure, fail, lift, refuse_if, ◌>>=◌, ◌>>◌}
use sulis.Model.{Session, RequestInfo}
use sulis.Model.Event.{EventKind, Reason, gate_reason}
use sulis.Service.{Sulis}
use sulis.Service.Guards.{event, now, emit, allow, allow_ip, account_status}
use sulis.Service.Tokens.{wrapping}
use sulis.Service.Login.{with_reason, reporting, upgrade_hash}

module _ {W : Type 0} (s : Sulis W) where
  unfoldable pub require_recent_auth : Session → ℕ → Exec W Unit
  require_recent_auth session max_age = do
    t ← now s
    refuse_if (ltb (session.authenticated_at + max_age) t) reauth_required

  unfoldable pub emit_reauth_failed : Session → RequestInfo → Option Reason → Exec W Unit
  emit_reauth_failed session ri why =
      emit s (event EventKind.reauth_failed session.user_id session.id ri (with_reason [] why))

  unfoldable pub re_authenticate : Session → Text → RequestInfo → Exec W Session
  unfolding emit_reauth_failed
  re_authenticate session password ri = do
    user ← s.users.get_user_by_id session.user_id
    allow_ip s (codes "password:") ri
    allow s (codes "password:" ++ user.email) ri
    reporting s (λ e. emit_reauth_failed session ri (gate_reason e)) (account_status s user)
    if is_empty user.password_hash
        then (do emit_reauth_failed session ri (some Reason.no_password); fail invalid_credentials)
        else do
          verdict ←
              wrapping (codes "sulis: verifying password")
                (lift (s.hasher.verify_password password user.password_hash))
          if verdict.0
              then (do
                upgrade_hash s user password verdict.1 ri
                    (event EventKind.password_legacy_form_matched user.id session.id ri [])
                t ← now s
                s.sessions.update_authenticated_at session.id t
                emit s (event EventKind.reauth_succeeded user.id session.id ri [])
                pure (record session { authenticated_at = t }))
              else (do
                emit_reauth_failed session ri (some Reason.wrong_password)
                fail invalid_credentials)
