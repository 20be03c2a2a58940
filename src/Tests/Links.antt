-- ===== src/Tests/Links.antt =====
-- Examples for the tokens that log a user in.
use sulis.Base.{◌≡◌, refl, none, [], ◌∷◌, true, is_some}
use sulis.Base.Text
use sulis.Base.Text.{Text}
use sulis.Base.Map.{find, insert, lookup}
use sulis.Error.{ok}
use sulis.Model.{LoginResult, Token, TokenPurpose, no_request}
use sulis.Service.Guards
use sulis.Service.Sessions
use sulis.Service.Tokens
use sulis.Service.Email
use sulis.Service.Login
use sulis.Service.TwoFactor
use sulis.Service.TwoFactor.Gates.{complete_two_factor_sound}
use sulis.Service.MagicLink
use sulis.Memstore.Users.{get_user_by_id}
use sulis.Memstore.Sessions.{create_session}
use sulis.Memstore.Tokens.{consume_token}
use sulis.Memory.{World}
use sulis.Tests.{service, world, ann, mailed, value}

abbrev nothing : LoginResult
nothing = record {
  user = ann;
  session = none;
  session_token = [];
  needs_second_factor = true;
  pending_token = [];
}

abbrev pending : World
pending = world TokenPurpose.two_factor

abbrev linked : World
linked = world TokenPurpose.magic_link

abbrev used : Token
used = record (mailed TokenPurpose.two_factor) { used = true }

consumes :
    Tokens.consume_token service (2 ∷ []) TokenPurpose.two_factor pending
    ≡ (ok used, (Tokens.consume_token service (2 ∷ []) TokenPurpose.two_factor pending).1)
unfolding Tokens.consume_token consume_token find Text.text_eq insert
consumes = refl

abbrev completed : LoginResult
completed = value nothing (TwoFactor.complete_two_factor service 7 (2 ∷ []) no_request pending)

completes :
    TwoFactor.complete_two_factor service 7 (2 ∷ []) no_request pending
    ≡ (ok completed, (TwoFactor.complete_two_factor service 7 (2 ∷ []) no_request pending).1)
unfolding TwoFactor.complete_two_factor Tokens.consume_token consume_token find Text.text_eq insert
    get_user_by_id lookup Guards.account_status Guards.require_verified_email
    Sessions.create_session create_session Guards.emit Guards.idle_expires_at
completes = refl

complete_two_factor_sound_example : is_some completed.session ≡ true
complete_two_factor_sound_example =
    (complete_two_factor_sound service 7 (2 ∷ []) no_request pending
      (TwoFactor.complete_two_factor service 7 (2 ∷ []) no_request pending).1 completed completes).9

abbrev redeemed : LoginResult
redeemed = value nothing (MagicLink.redeem_magic_link service (2 ∷ []) (3 ∷ []) no_request linked)
