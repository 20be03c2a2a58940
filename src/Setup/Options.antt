-- ===== src/Setup/Options.antt =====
-- The options of config.go, and WithEventSink of events.go.
use sulis.Base.{ℕ, Bool, Option, none}
use sulis.Base.Text.{Text}
use sulis.Service.{Limiter, PasswordChecker, EventSink, Config}
use sulis.Http.{TokenSource}
use sulis.Password.{Argon2Params}
use sulis.Setup.{Settings}

module _ {W : Type 0} where
  -- a change of what the service reads
  abbrev pub on_service : (Config W → Config W) → Settings W → Settings W
  on_service f c = record c { service = f c.service }

  abbrev pub with_session_duration : ℕ → Settings W → Settings W
  with_session_duration d = on_service λ c. record c { session_duration = d }

  abbrev pub with_token_duration : ℕ → Settings W → Settings W
  with_token_duration d = on_service λ c. record c { token_duration = d }

  abbrev pub with_magic_link_duration : ℕ → Settings W → Settings W
  with_magic_link_duration d = on_service λ c. record c { magic_link_duration = d }

  abbrev pub with_two_factor_token_duration : ℕ → Settings W → Settings W
  with_two_factor_token_duration d = on_service λ c. record c { two_factor_token_duration = d }

  abbrev pub with_email_verification_token_duration : ℕ → Settings W → Settings W
  with_email_verification_token_duration d =
      on_service λ c. record c { email_verification_token_duration = d }

  abbrev pub with_argon2_params : Argon2Params → Settings W → Settings W
  with_argon2_params p c = record c { argon2 = p }

  abbrev pub with_pepper : Text → Settings W → Settings W
  with_pepper pepper c = record c { pepper = pepper }

  abbrev pub with_revoke_sessions_on_password_change : Bool → Settings W → Settings W
  with_revoke_sessions_on_password_change revoke =
      on_service λ c. record c { revoke_sessions_on_password_change = revoke }

  abbrev pub with_password_length_limits : ℕ → ℕ → Settings W → Settings W
  with_password_length_limits min_length max_length =
      on_service
        λ c. record c { min_password_length = min_length; max_password_length = max_length }

  abbrev pub with_require_verified_email : Bool → Settings W → Settings W
  with_require_verified_email require =
      on_service λ c. record c { require_verified_email = require }

  abbrev pub with_magic_link_binding : Bool → Settings W → Settings W
  with_magic_link_binding b = on_service λ c. record c { magic_link_binding = b }

  abbrev pub with_limiter : Option (Limiter W) → Settings W → Settings W
  with_limiter l = on_service λ c. record c { limiter = l }

  abbrev pub with_failure_lockout : ℕ → ℕ → ℕ → Settings W → Settings W
  with_failure_lockout threshold base_backoff max_backoff = on_service λ c. record c {
    failure_lockout_threshold = threshold;
    failure_lockout_base_backoff = base_backoff;
    failure_lockout_max_backoff = max_backoff;
  }

  abbrev pub with_idle_timeout : ℕ → Settings W → Settings W
  with_idle_timeout d = on_service λ c. record c { idle_timeout = d }

  abbrev pub with_password_checker : Option (PasswordChecker W) → Settings W → Settings W
  with_password_checker checker = on_service λ c. record c { password_checker = checker }

  abbrev pub without_rate_limiting : Settings W → Settings W
  without_rate_limiting = on_service λ c. record c { limiter = none }

  abbrev pub with_cookie_name : Text → Settings W → Settings W
  with_cookie_name name c = record c { cookie_name = name }

  abbrev pub with_csrf_cookie_name : Text → Settings W → Settings W
  with_csrf_cookie_name name c = record c { csrf_cookie_name = name }

  abbrev pub with_token_source : TokenSource → Settings W → Settings W
  with_token_source ts c = record c { token_source = ts }

  abbrev pub with_event_sink : Option (EventSink W) → Settings W → Settings W
  with_event_sink sink = on_service λ c. record c { event_sink = sink }
