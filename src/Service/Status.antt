-- ===== src/Service/Status.antt =====
-- status.go: disabling and enabling an account, and the automatic lockout.
pub mod Backoff
use sulis.Base.{
  ℕ, suc, ◌+◌, ◌-◌, ◌*◌, ◌%◌, ◌^◌, Bool, true, false, ◌||◌, Option, none, some, List, [], ◌∷◌, ltb,
  leb, ◌==◌, if◌then◌else◌,
}
use sulis.Base.Text.{Text, codes}
use sulis.Error.{Error, Result, ok, err, wrapped, errors_is, concurrent_update, user_not_found}
use sulis.Exec.{Exec, pure, throw, attempt, ◌>>=◌, ◌>>◌}
use sulis.Model.{User, RequestInfo, no_request, nil_id}
use sulis.Model.Event.{EventKind}
use sulis.Service.{Sulis}
use sulis.Service.Guards.{event, now, emit}
use sulis.Service.Users.{update_user_with_retry}
use sulis.Service.Sessions.{revoke_user_sessions}

-- base << excess in a 64-bit duration: a result with the top bit set is negative
abbrev pub shift_left : ℕ → ℕ → ℕ
shift_left base excess = base * 2 ^ excess % 2 ^ 64

unfoldable pub lockout_backoff : ℕ → ℕ → ℕ → ℕ
lockout_backoff base max_backoff excess =
    let clamped = if ltb 32 excess then 32 else excess in
    let backoff = shift_left base clamped in
    if backoff == 0 || leb (2 ^ 63) backoff || ltb max_backoff backoff then max_backoff else backoff

module _ {W : Type 0} (s : Sulis W) where
  unfoldable pub disable_user : ℕ → Text → Exec W Unit
  disable_user user_id why = do
    t ← now s
    updated ←
        update_user_with_retry s {A = Unit {0}} user_id
          λ u. pure (record u { disabled_at = some t; disabled_reason = why; updated_at = t }, tt)
    emit s (event EventKind.account_disabled updated.0.id nil_id no_request [])
    revoke_user_sessions s updated.0.id

  unfoldable pub enable_user : ℕ → Exec W Unit
  enable_user user_id = do
    update_user_with_retry s {A = Unit {0}} user_id λ u. do
      t ← now s
      pure (record u { disabled_at = none; disabled_reason = []; updated_at = t }, tt)
    emit s (event EventKind.account_enabled user_id nil_id no_request [])

  -- the row after one more wrong password at time `t`, and whether that locked it
  unfoldable pub count_failure : ℕ → User → User × Bool
  unfolding lockout_backoff
  count_failure t u =
      let attempts = u.failed_login_attempts + 1 in
      let threshold = s.cfg.failure_lockout_threshold in
      if leb threshold attempts
      then (
        record u {
          failed_login_attempts = attempts;
          locked_until = some (
              t
              + lockout_backoff s.cfg.failure_lockout_base_backoff s.cfg.failure_lockout_max_backoff
                  (attempts - threshold));
          updated_at = t;
        },
        true,
      )
      else (record u { failed_login_attempts = attempts; updated_at = t }, false)

  unfoldable pub record_failed_login : ℕ → RequestInfo → Exec W Unit
  unfolding count_failure
  record_failed_login user_id ri = do
    t ← now s
    recorded ← attempt (update_user_with_retry s user_id (λ u. pure (count_failure t u)))
    elim recorded [
      | ok updated ↦
          if updated.1
          then emit s (event EventKind.account_locked user_id nil_id ri [])
          else pure tt
      | err e ↦
          if errors_is e concurrent_update || errors_is e user_not_found
          then pure tt
          else throw (wrapped (codes "sulis: recording a failed login") e)
    ]

  -- the row with its lockout bookkeeping cleared at time `t`
  abbrev pub clear_lockout : ℕ → User → User
  clear_lockout t u = record u { failed_login_attempts = 0; locked_until = none; updated_at = t }

  unfoldable pub clear_failed_logins : ℕ → RequestInfo → Exec W Unit
  clear_failed_logins user_id ri = do
    cleared ← attempt (
        update_user_with_retry s {A = Unit {0}} user_id
          λ u. do t ← now s; pure (clear_lockout t u, tt))
    elim cleared [
      | ok _ ↦ emit s (event EventKind.account_lockout_cleared user_id nil_id ri [])
      | err _ ↦ pure tt
    ]
