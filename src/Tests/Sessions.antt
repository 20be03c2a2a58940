-- ===== src/Tests/Sessions.antt =====
-- Examples for the sessions.
use sulis.Base.{ℕ, ◌≡◌, refl, List, none, [], ◌∷◌}
use sulis.Base.Text
use sulis.Base.Map.{find, insert, lookup, delete}
use sulis.Error.{ok}
use sulis.Model.{Session, Authentication, AuthMethod, TokenPurpose, no_request}
use sulis.Service.Guards
use sulis.Service.Sessions
use sulis.Service.Sessions.Validity.{validate_session_sound, refresh_session_sound}
use sulis.Memstore.Users.{get_user_by_id}
use sulis.Memstore.Sessions.{
  create_session, get_session_by_token_hash, delete_session, touch_session,
}
use sulis.Memory.{World}
use sulis.Tests.{service, world, ann, ticket, value}

abbrev start : World
start = world TokenPurpose.two_factor

validates :
    Sessions.validate_session service (1 ∷ []) start
    ≡ (ok (ticket, ann), (Sessions.validate_session service (1 ∷ []) start).1)
unfolding Sessions.validate_session get_session_by_token_hash find Text.text_eq get_user_by_id
    Sessions.touch lookup Guards.idle_expires_at Guards.session_touch_interval touch_session
validates = refl

validate_session_sound_example : ann.disabled_at ≡ none
validate_session_sound_example =
    (validate_session_sound service (1 ∷ []) start
      (Sessions.validate_session service (1 ∷ []) start).1 ticket ann validates).5

abbrev refreshed : Session × List ℕ
refreshed = value (ticket, []) (Sessions.refresh_session service ticket start)

refreshes :
    Sessions.refresh_session service ticket start
    ≡ (ok refreshed, (Sessions.refresh_session service ticket start).1)
unfolding Sessions.refresh_session delete_session lookup get_user_by_id Guards.account_status
    Guards.require_verified_email create_session insert delete Guards.emit Guards.idle_expires_at
refreshes = refl

refresh_session_sound_example : refreshed.0.user_id ≡ ticket.user_id
refresh_session_sound_example =
    (refresh_session_sound service ticket refreshed.0 refreshed.1 start
      (Sessions.refresh_session service ticket start).1 refreshes).7

abbrev proof : Authentication
proof = record { user_id = 7; method = AuthMethod.passkey; at = 950 }

abbrev issued : Session × List ℕ
issued = value (ticket, []) (Sessions.issue_session service proof start)

issues :
    Sessions.issue_session service proof start
    ≡ (ok issued, (Sessions.issue_session service proof start).1)
unfolding Sessions.issue_session Sessions.issue_session_of Sessions.issue_session_for_user
    Sessions.create_session lookup get_user_by_id Guards.account_status
    Guards.require_verified_email create_session insert Guards.emit Guards.idle_expires_at
issues = refl

abbrev made : Session × List ℕ
made =
    value (ticket, []) (Sessions.create_session service 7 AuthMethod.password 950 no_request start)

makes :
    Sessions.create_session service 7 AuthMethod.password 950 no_request start
    ≡ (ok made, (Sessions.create_session service 7 AuthMethod.password 950 no_request start).1)
unfolding Sessions.create_session create_session insert Guards.emit Guards.idle_expires_at
makes = refl
