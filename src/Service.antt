-- ===== src/Service.antt =====
-- The service of sulis.go with what it is built from: the store interfaces of user.go, session.go and
-- token.go, the second-factor checker of issue.go, the limiter, the password checker and the
-- configuration of config.go, and the event sink of events.go. All are over a world `W`, which is
-- what the stores, the clock and the sinks read and write.
--
-- `Platform` stands for the standard library's clock, uuid.NewV7 and crypto/rand with the hex and
-- SHA-256 encodings; `Hasher` for the password hashing of password.go, which the service calls by
-- three functions; `parse_address` for net/mail.
pub mod Guards
pub mod Users
pub mod Tokens
pub mod Sessions
pub mod Status
pub mod Login
pub mod Password
pub mod Email
pub mod MagicLink
pub mod TwoFactor
pub mod StepUp
use sulis.Base.{ℕ, Bool, Option, List}
use sulis.Base.Text.{Text}
use sulis.Error.{Result}
use sulis.Exec.{Exec}
use sulis.Model.{User, Session, Token, TokenPurpose}
use sulis.Model.Event.{Event}

pub record UserStore (W : Type 0) : Type 0 where
  pub create_user : User → Exec W Unit
  pub get_user_by_id : ℕ → Exec W User
  pub get_user_by_email : Text → Exec W User
  pub update_user : User → Exec W Unit
  pub delete_user : ℕ → Exec W Unit

pub record SessionStore (W : Type 0) : Type 0 where
  pub create_session : Session → Exec W Unit
  pub get_session_by_token_hash : Text → Exec W Session
  pub list_user_sessions : ℕ → Exec W (List Session)
  pub delete_session : ℕ → ℕ → Exec W Unit
  pub delete_user_sessions : ℕ → Exec W Unit
  pub delete_user_sessions_except : ℕ → ℕ → Exec W Unit
  pub clean_expired : Exec W Unit
  pub update_authenticated_at : ℕ → ℕ → Exec W Unit
  pub touch_session : ℕ → ℕ → Option ℕ → Exec W Unit

pub record TokenStore (W : Type 0) : Type 0 where
  pub create_token : Token → Exec W Unit
  pub consume_token : Text → TokenPurpose → Exec W Token
  pub delete_expired_tokens : Exec W Unit
  pub delete_user_tokens : ℕ → TokenPurpose → Exec W Unit

pub record SecondFactorChecker (W : Type 0) : Type 0 where
  pub has_second_factor : ℕ → Exec W Bool

pub record Limiter (W : Type 0) : Type 0 where
  pub allow : Text → Exec W Unit

pub record PasswordChecker (W : Type 0) : Type 0 where
  pub check : Text → Exec W Unit

-- Emit returns nothing, and a panic in it is recovered: all that is left is what it wrote.
pub record EventSink (W : Type 0) : Type 0 where
  pub emit : Event → W → W

pub record Platform (W : Type 0) : Type 0 where
  pub now : W → ℕ × W
  pub new_id : W → ℕ × W
  -- hex.EncodeToString of so many bytes of rand.Read
  pub random_hex : ℕ → Exec W Text
  -- hex.EncodeToString of sha256.Sum256
  pub sha256_hex : Text → Text
  -- the address that mail.ParseAddress reads, or nothing
  pub parse_address : Text → Option Text

pub record Hasher (W : Type 0) : Type 0 where
  pub normalize_password : Text → Text
  pub hash_password : Text → Exec W Text
  -- whether the password matches the stored hash, and whether only by its legacy form
  pub verify_password : Text → Text → Result (Bool × Bool)
  pub needs_rehash : Text → Bool

pub record Config (W : Type 0) : Type 0 where
  pub session_duration : ℕ
  pub token_duration : ℕ
  pub magic_link_duration : ℕ
  pub two_factor_token_duration : ℕ
  pub email_verification_token_duration : ℕ
  pub session_token_bytes : ℕ
  pub reset_token_bytes : ℕ
  pub revoke_sessions_on_password_change : Bool
  pub require_verified_email : Bool
  pub magic_link_binding : Bool
  pub min_password_length : ℕ
  pub max_password_length : ℕ
  pub limiter : Option (Limiter W)
  pub password_checker : Option (PasswordChecker W)
  pub failure_lockout_threshold : ℕ
  pub failure_lockout_base_backoff : ℕ
  pub failure_lockout_max_backoff : ℕ
  pub idle_timeout : ℕ
  pub event_sink : Option (EventSink W)

pub record Sulis (W : Type 0) : Type 0 where
  pub users : UserStore W
  pub sessions : SessionStore W
  pub tokens : TokenStore W
  pub factors : SecondFactorChecker W
  pub cfg : Config W
  pub dummy_hash : Text
  pub platform : Platform W
  pub hasher : Hasher W
