-- ===== src/Model.antt =====
-- The data of package sulis: user.go, session.go, token.go, issue.go, events.go and config.go.
--
-- An identifier (uuid.UUID) is a number, and uuid.Nil() is 0. A time.Time is the number of
-- nanoseconds since the zero time, and a time.Duration a number of nanoseconds that is not negative.
-- A pointer that may be nil is an option. The free-form Metadata maps of users and sessions are
-- carried as one opaque value.
pub mod Event
use sulis.Base.{ℕ, ◌+◌, ◌*◌, Bool, true, false, Option, none, some, List, [], ◌∷◌}
use sulis.Base.Text.{Text, codes}

abbrev pub nil_id : ℕ
nil_id = 0

pub record User : Type 0 where
  pub id : ℕ
  pub email : Text
  pub password_hash : Text
  pub created_at : ℕ
  pub updated_at : ℕ
  pub metadata : Option ℕ
  pub email_verified_at : Option ℕ
  pub pending_email : Text
  pub disabled_at : Option ℕ
  pub disabled_reason : Text
  pub locked_until : Option ℕ
  pub failed_login_attempts : ℕ
  pub version : ℕ

pub data AuthMethod : Type 0 where
  password magic_link passkey two_factor recovery_code : AuthMethod

pub record RequestInfo : Type 0 where
  pub ip : Text
  pub user_agent : Text

abbrev pub no_request : RequestInfo
no_request = record { ip = []; user_agent = [] }

pub record Session : Type 0 where
  pub id : ℕ
  pub user_id : ℕ
  pub token_hash : Text
  pub expires_at : ℕ
  pub created_at : ℕ
  pub authenticated_at : ℕ
  pub method : AuthMethod
  pub last_seen_at : ℕ
  pub idle_expires_at : Option ℕ
  pub ip : Text
  pub user_agent : Text
  pub metadata : Option ℕ

pub data TokenPurpose : Type 0 where
  password_reset magic_link two_factor email_verification email_change : TokenPurpose

pub record Token : Type 0 where
  pub id : ℕ
  pub user_id : ℕ
  pub token_hash : Text
  pub purpose : TokenPurpose
  pub expires_at : ℕ
  pub created_at : ℕ
  pub used : Bool
  pub email : Text
  pub nonce_hash : Text

pub record LoginResult : Type 0 where
  pub user : User
  pub session : Option Session
  pub session_token : Text
  pub needs_second_factor : Bool
  pub pending_token : Text

-- the proof value that IssueSession demands
pub record Authentication : Type 0 where
  pub user_id : ℕ
  pub method : AuthMethod
  pub at : ℕ

-- a == b on purposes
abbrev pub purpose_code : TokenPurpose → ℕ
purpose_code TokenPurpose.password_reset = 0
purpose_code TokenPurpose.magic_link = 1
purpose_code TokenPurpose.two_factor = 2
purpose_code TokenPurpose.email_verification = 3
purpose_code TokenPurpose.email_change = 4
