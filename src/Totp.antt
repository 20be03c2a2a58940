-- ===== src/Totp.antt =====
-- Package totp: its credentials, its store and its configuration, from totp/store.go and totp/totp.go.
--
-- The shared secret of a new enrollment, base32 and HMAC are code outside the repository: a service
-- takes them as fields.
pub mod Code
pub mod Enrollment
pub mod Replay
pub mod Encryption
pub mod Construction
use sulis.Base.{ℕ, Bool, Option, List}
use sulis.Base.Text.{Text}
use sulis.Error.{Result}
use sulis.Exec.{Exec}
use sulis.Service.{Limiter}

pub record Credential : Type 0 where
  pub id : ℕ
  pub user_id : ℕ
  pub secret : Text
  pub verified : Bool
  pub last_used_counter : ℕ
  pub created_at : ℕ

pub record TotpStore (W : Type 0) : Type 0 where
  pub get_active_totp : ℕ → Exec W Credential
  pub get_pending_totp : ℕ → Exec W Credential
  pub enroll_pending : Credential → Exec W Unit
  pub replace_pending : Credential → Exec W Unit
  -- the user, the pending enrollment and the counter that was matched
  pub confirm_enrollment : ℕ → ℕ → ℕ → Exec W Credential
  pub save_totp : Credential → Exec W Unit
  pub delete_totp : ℕ → Exec W Unit

pub record Encryptor (W : Type 0) : Type 0 where
  pub encrypt : Text → Exec W Text
  pub decrypt : Text → Result Text

pub record TotpConfig (W : Type 0) : Type 0 where
  pub digits : ℕ
  pub period : ℕ
  pub skew : ℕ
  pub limiter : Option (Limiter W)
  pub encryptor : Option (Encryptor W)

pub record TotpService (W : Type 0) : Type 0 where
  pub store : TotpStore W
  pub cfg : TotpConfig W
  pub now : W → ℕ × W
  pub new_id : W → ℕ × W
  -- base32 of SecretSize bytes of rand.Read
  pub random_secret : Exec W Text
  pub decode_base32 : Text → Option (List ℕ)
  -- the key, then the message
  pub hmac : List ℕ → List ℕ → List ℕ
