-- ===== src/Service/MagicLink/Binding.antt =====
-- What RedeemMagicLink of magiclink.go has checked when it logs a user in.
use sulis.Base.{ℕ, none, some, is_some, ◌≡◌, ◌≢◌, true, not, []}
use sulis.Base.Text.{Text}
use sulis.Error.{ok}
use sulis.Model.{User, Token, LoginResult, nil_id}
use sulis.Service.{Sulis}
use sulis.Service.Guards.Gates.{IsActive, IsVerified}

module _ {W : Type 0} (s : Sulis W) where
  -- The user is the one whom the token names, or, where it names none, one with the token's address, whom
  -- the store returned or has just been given.
  pub data IsFor (token : Token) (user : User) : Type 0 where
    named :
        (x : W)
        → token.user_id ≢ nil_id
        → (s.users.get_user_by_id token.user_id x).0 ≡ ok user
        → IsFor token user
    addressed :
        (x : W)
        → token.user_id ≡ nil_id
        → (s.users.get_user_by_email token.email x).0 ≡ ok user
        → IsFor token user
    created :
        (x : W)
        → token.user_id ≡ nil_id
        → user.email ≡ token.email
        → (s.users.create_user user x).0 ≡ ok tt
        → IsFor token user

  -- the row of a user who signs up by a link
  abbrev new_user : ℕ → ℕ → Text → User
  new_user id t email = record {
    id = id;
    email = email;
    password_hash = [];
    created_at = t;
    updated_at = t;
    metadata = none;
    email_verified_at = none;
    pending_email = [];
    disabled_at = none;
    disabled_reason = [];
    locked_until = none;
    failed_login_attempts = 0;
    version = 0;
  }

  -- The user's address was verified before, or is stamped as verified by a write that the store accepted
  -- of a row that it had returned, or was stamped by another request, and is the row that the store then
  -- returned.
  pub data IsStamped (user verified : User) : Type 0 where
    before : is_some user.email_verified_at ≡ true → verified ≡ user → IsStamped user verified
    here :
        (x y z : W) (row : User) (t : ℕ)
        → s.users.get_user_by_id user.id x ≡ (ok row, y)
        → verified ≡ record row { email_verified_at = some t; updated_at = t }
        → s.users.update_user verified y ≡ (ok tt, z)
        → IsStamped user verified
    elsewhere :
        (x : W) → (s.users.get_user_by_id user.id x).0 ≡ ok verified → IsStamped user verified

  -- What a login by link has passed: the user for whom the token is was stamped, and then passed the
  -- gates of the first factor, as the result has it.
  pub record ByLink (token : Token) (r : LoginResult) : Type 0 where
    pub user : User
    pub is_for : IsFor token user
    pub stamped : IsStamped user r.user
    pub gated : W
    pub active : IsActive r.user (s.platform.now gated).0
    pub verified : IsVerified s r.user
    pub asked : W
    pub factors : (s.factors.has_second_factor r.user.id asked).0 ≡ ok r.needs_second_factor
    pub session : is_some r.session ≡ not r.needs_second_factor
