-- ===== src/Model/Event.antt =====
-- events.go: the kinds of security events, their metadata, the record that a sink receives, and the
-- mapping from a refusal to the reason that an event reports.
use sulis.Base.{ℕ, Option, none, some, List, if◌then◌else◌}
use sulis.Base.Text.{Text, codes, before, contains}
use sulis.Error.{Error, Sentinel, errors_is}
use sulis.Model.{AuthMethod, RequestInfo}

pub data EventKind : Type 0 where
  account_registered login_succeeded login_failed : EventKind
  password_changed password_set password_reset_requested password_reset : EventKind
  password_rehashed password_rehash_failed password_legacy_form_matched : EventKind
  second_factor_demanded second_factor_completed second_factor_failed : EventKind
  session_issued session_revoked session_refreshed session_expired session_idle_expired : EventKind
  email_change_staged email_change_confirmed email_verified : EventKind
  magic_link_created magic_link_redeemed magic_link_rejected : EventKind
  rate_limit_tripped : EventKind
  account_disabled account_enabled account_locked account_lockout_cleared : EventKind
  reauth_succeeded reauth_failed : EventKind
  csrf_rejected same_origin_rejected : EventKind

pub data Reason : Type 0 where
  user_not_found no_password wrong_password : Reason
  account_disabled account_locked email_not_verified factor_check_failed : Reason
  token_invalid token_expired token_already_used user_mismatch binding_mismatch : Reason
  hash_failed store_failed password_changed : Reason
  idle_timeout absolute_expiry : Reason
  csrf_token_invalid cross_site origin_not_allowed : Reason

pub data Dimension : Type 0 where
  account ip : Dimension

-- A key of the metadata with its value. `single_session` and `all_sessions` are values of the key
-- `scope`.
pub data Metadata : Type 0 where
  reason : Reason → Metadata
  method : AuthMethod → Metadata
  scope : Text → Metadata
  single_session all_sessions : Metadata
  dimension : Dimension → Metadata

pub record Event : Type 0 where
  pub kind : EventKind
  pub user_id : ℕ
  pub session_id : ℕ
  pub request_info : RequestInfo
  pub at : ℕ
  pub metadata : List Metadata

unfoldable pub gate_reason : Error → Option Reason
gate_reason e =
    if errors_is e Sentinel.account_disabled
    then some Reason.account_disabled
    else if errors_is e Sentinel.account_locked
    then some Reason.account_locked
    else if errors_is e Sentinel.email_not_verified
    then some Reason.email_not_verified
    else none

unfoldable pub token_reason : Error → Reason
token_reason e =
    if errors_is e Sentinel.token_expired
    then Reason.token_expired
    else if errors_is e Sentinel.token_already_used
    then Reason.token_already_used
    else Reason.token_invalid

unfoldable pub limiter_key_parts : Text → Text × Dimension
limiter_key_parts key =
    (before b':' key, if contains key (codes ":ip:") then Dimension.ip else Dimension.account)
