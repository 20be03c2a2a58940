-- ===== src/Service/Guards.antt =====
-- The checks that the service's methods share: emit of events.go; allow, requireVerifiedEmail,
-- normalizeEmail and checkPasswordPolicy of sulis.go; allowIP of limiter.go; accountStatus of
-- status.go; sessionTouchInterval and idleExpiresAt of session.go.
pub mod Gates
use sulis.Base.{
  ℕ, ◌+◌, ◌*◌, ◌/◌, ◌≡◌, Bool, true, false, ◌&&◌, ◌||◌, not, Option, none, some, List, [], ◌∷◌,
  ◌++◌, ltb, leb, ◌==◌, if◌then◌else◌, length, is_some,
}
use sulis.Base.Text.{Text, codes, text_eq, is_empty, trim_space, to_lower}
use sulis.Error.{
  Error, Result, ok, err, sentinel, invalid_email, email_not_verified, rate_limited,
  account_disabled, account_locked, password_too_short, password_too_long,
}
use sulis.Exec.{Exec, pure, throw, fail, lift, attempt, total, refuse_if, ◌>>=◌, ◌>>◌}
use sulis.Model.{User, RequestInfo, no_request, nil_id}
use sulis.Model.Event.{Event, EventKind, Metadata, scope, dimension, limiter_key_parts}
use sulis.Service.{Sulis, EventSink}

-- an event as the methods build it: its time is filled in by `emit`
abbrev pub event : EventKind → ℕ → ℕ → RequestInfo → List Metadata → Event
event kind user_id session_id ri pairs = record {
  kind = kind;
  user_id = user_id;
  session_id = session_id;
  request_info = ri;
  at = 0;
  metadata = pairs;
}

-- strings.TrimSpace, the length bound, mail.ParseAddress and strings.ToLower
unfoldable pub normalize_email : (Text → Option Text) → Text → Result Text
normalize_email parse_address raw =
    let email = trim_space raw in
    if is_empty email || ltb 254 (length email)
    then err (sentinel invalid_email)
    else elim (parse_address email) [
      | none ↦ err (sentinel invalid_email)
      | some address ↦
          if text_eq address email then ok (to_lower email) else err (sentinel invalid_email)
    ]

abbrev pub default_session_touch_interval : ℕ
default_session_touch_interval = 5 * 60 * 1000000000

module _ {W : Type 0} (s : Sulis W) where
  abbrev pub now : Exec W ℕ
  now = total s.platform.now

  unfoldable pub emit : Event → Exec W Unit
  emit e = elim s.cfg.event_sink [
    | none ↦ pure tt
    | some sink ↦ do
      at ← if e.at == 0 then now else pure e.at
      total (λ w. (tt, sink.emit (record e { at = at }) w))
  ]

  unfoldable pub allow : Text → RequestInfo → Exec W Unit
  unfolding emit limiter_key_parts
  allow key ri = elim s.cfg.limiter [
    | none ↦ pure tt
    | some limiter ↦ do
      answer ← attempt (limiter.allow key)
      elim answer [
        | ok _ ↦ pure tt
        | err _ ↦ do
          let parts = limiter_key_parts key
          emit (
              event EventKind.rate_limit_tripped nil_id nil_id ri
                (scope parts.0 ∷ dimension parts.1 ∷ []))
          fail rate_limited
      ]
  ]

  unfoldable pub allow_ip : Text → RequestInfo → Exec W Unit
  unfolding allow
  allow_ip prefix ri =
      if is_empty ri.ip then pure tt else allow (prefix ++ (codes "ip:" ++ ri.ip)) ri

  unfoldable pub require_verified_email : User → Exec W Unit
  require_verified_email user =
      refuse_if (s.cfg.require_verified_email && not (is_some user.email_verified_at))
        email_not_verified

  unfoldable pub account_status : User → Exec W Unit
  account_status user = elim user.disabled_at [
    | some _ ↦ fail account_disabled
    | none ↦ elim user.locked_until [
      | none ↦ pure tt
      | some until ↦ do t ← now; refuse_if (ltb t until) account_locked
    ]
  ]

  unfoldable pub check_password_policy : Text → Exec W Unit
  check_password_policy password = do
    let normalized = s.hasher.normalize_password password
    refuse_if (ltb (length normalized) s.cfg.min_password_length) password_too_short
    refuse_if (ltb s.cfg.max_password_length (length normalized)) password_too_long
    elim s.cfg.password_checker [ none ↦ pure tt | some checker ↦ checker.check normalized ]

  unfoldable pub session_touch_interval : ℕ
  session_touch_interval =
      if ltb 0 s.cfg.idle_timeout then s.cfg.idle_timeout / 4 else default_session_touch_interval

  unfoldable pub idle_expires_at : ℕ → Option ℕ
  idle_expires_at at = if s.cfg.idle_timeout == 0 then none else some (at + s.cfg.idle_timeout)
