-- ===== src/Tests/Login.antt =====
-- Examples for the logins.
use sulis.Base.{◌≡◌, refl, inr, true, false, none, []}
use sulis.Base.Text
use sulis.Base.Map.{find, insert}
use sulis.Error.{ok}
use sulis.Model.{AuthMethod, LoginResult, TokenPurpose, no_request}
use sulis.Service.Guards
use sulis.Service.Login
use sulis.Service.Sessions
use sulis.Service.Login.Gates.{login_sound, NoMatch, Matched}
use sulis.Memstore.Users.{get_user_by_email}
use sulis.Memstore.Sessions.{create_session}
use sulis.Memory.{World}
use sulis.Tests.{service, world, ann, address, secret, value}

abbrev nothing : LoginResult
nothing = record {
  user = ann;
  session = none;
  session_token = [];
  needs_second_factor = true;
  pending_token = [];
}

abbrev start : World
start = world TokenPurpose.two_factor

verify_runs :
    Login.verify_password service address secret no_request start
    ≡ (ok ann, (Login.verify_password service address secret no_request start).1)
unfolding Login.login Login.verify_password Guards.normalize_email Text.trim_space Text.text_eq
    Guards.allow_ip Login.judge get_user_by_email find Text.to_lower Login.check_password
    Login.right_password Login.upgrade_hash Guards.account_status Login.complete_first_factor
    Guards.require_verified_email Sessions.create_session create_session insert Text.before
    Text.contains Text.cut_prefix Text.has_prefix Text.is_space Text.lower_byte Text.trim_left
    Guards.allow Guards.emit Guards.idle_expires_at
verify_runs = refl

gates_run : Login.complete_first_factor service ann AuthMethod.password no_request start ≡ (
  ok (value nothing (Login.complete_first_factor service ann AuthMethod.password no_request start)),
  (Login.complete_first_factor service ann AuthMethod.password no_request start).1,
)
unfolding Login.login Login.verify_password Guards.normalize_email Text.trim_space Text.text_eq
    Guards.allow_ip Login.judge get_user_by_email find Text.to_lower Login.check_password
    Login.right_password Login.upgrade_hash Guards.account_status Login.complete_first_factor
    Guards.require_verified_email Sessions.create_session create_session insert Text.before
    Text.contains Text.cut_prefix Text.has_prefix Text.is_space Text.lower_byte Text.trim_left
    Guards.allow Guards.emit Guards.idle_expires_at
gates_run = refl

login_runs : Login.login service address secret no_request start ≡ (
  ok (value nothing (Login.login service address secret no_request start)),
  (Login.login service address secret no_request start).1,
)
unfolding Login.login Login.verify_password Guards.normalize_email Text.trim_space Text.text_eq
    Guards.allow_ip Login.judge get_user_by_email find Text.to_lower Login.check_password
    Login.right_password Login.upgrade_hash Guards.account_status Login.complete_first_factor
    Guards.require_verified_email Sessions.create_session create_session insert Text.before
    Text.contains Text.cut_prefix Text.has_prefix Text.is_space Text.lower_byte Text.trim_left
    Guards.allow Guards.emit Guards.idle_expires_at
login_runs = refl

abbrev logged_in : LoginResult
logged_in = value nothing (Login.login service address secret no_request start)

login_sound_example : Matched service logged_in.user secret
login_sound_example =
    (login_sound service address secret no_request start
      (Login.login service address secret no_request start).1 logged_in login_runs).0

wrong : NoMatch service (ok ann) address
unfolding Text.text_eq
wrong = inr (false, refl)
