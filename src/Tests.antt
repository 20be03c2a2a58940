-- ===== src/Tests.antt =====
-- The data of the examples: one user, a service over the in-memory stores, and an outside with
-- concrete answers.
pub mod Login
pub mod Sessions
pub mod Links
pub mod Stores
pub mod Backoff
pub mod Codes
pub mod Requests
pub mod Passkeys
pub mod Hashes
pub mod Sql
pub mod Connections
pub mod Setup
pub mod Contention
pub mod Breaches
use sulis.Base.{ℕ, ◌+◌, Bool, true, false, Option, none, some, List, [], ◌∷◌, ◌++◌}
use sulis.Base.Text.{Text, codes, text_eq}
use sulis.Error.{Result, ok, err}
use sulis.Model.{User, Session, Token, TokenPurpose, AuthMethod, RequestInfo}
use sulis.Service.{Sulis, Config}
use sulis.Memory.{World, Outside, in_memory, recorder}

abbrev pub outside : Outside
outside = record {
  clock = λ n. 1000 + n;
  id = λ n. 100 + n;
  random_hex = λ n bytes. n ∷ bytes ∷ [];
  sha256_hex = λ text. 104 ∷ text;
  parse_address = some;
  normalize_password = λ password. password;
  hash_password = λ n password. 36 ∷ password;
  verify_password = λ password hash. ok (text_eq hash (36 ∷ password), false);
  needs_rehash = λ hash. false;
  has_second_factor = λ user. false;
}

abbrev pub config : Config World
config = record {
  session_duration = 500;
  token_duration = 100;
  magic_link_duration = 100;
  two_factor_token_duration = 100;
  email_verification_token_duration = 100;
  session_token_bytes = 32;
  reset_token_bytes = 32;
  revoke_sessions_on_password_change = true;
  require_verified_email = true;
  magic_link_binding = true;
  min_password_length = 1;
  max_password_length = 64;
  limiter = none;
  password_checker = none;
  failure_lockout_threshold = 0;
  failure_lockout_base_backoff = 1;
  failure_lockout_max_backoff = 1;
  idle_timeout = 0;
  event_sink = some recorder;
}

abbrev pub service : Sulis World
service = in_memory outside config

abbrev pub address : Text
address = codes "a@b"

abbrev pub secret : Text
secret = codes "pw"

abbrev pub ann : User
ann = record {
  id = 7;
  email = address;
  password_hash = 36 ∷ secret;
  created_at = 10;
  updated_at = 10;
  metadata = none;
  email_verified_at = some 10;
  pending_email = [];
  disabled_at = none;
  disabled_reason = [];
  locked_until = none;
  failed_login_attempts = 0;
  version = 3;
}

abbrev pub ticket : Session
ticket = record {
  id = 50;
  user_id = 7;
  token_hash = 104 ∷ 1 ∷ [];
  expires_at = 2000;
  created_at = 900;
  authenticated_at = 900;
  method = AuthMethod.password;
  last_seen_at = 900;
  idle_expires_at = none;
  ip = [];
  user_agent = [];
  metadata = none;
}

abbrev pub mailed : TokenPurpose → Token
mailed purpose = record {
  id = 60;
  user_id = 7;
  token_hash = 104 ∷ 2 ∷ [];
  purpose = purpose;
  expires_at = 2000;
  created_at = 900;
  used = false;
  email = address;
  nonce_hash = 104 ∷ 3 ∷ [];
}

-- a world with the user, her session and one token
abbrev pub world : TokenPurpose → World
world purpose = record {
  users = (7, ann) ∷ [];
  sessions = (50, ticket) ∷ [];
  tokens = (60, mailed purpose) ∷ [];
  events = [];
  asked = 0;
}

module _ {A : Type 0} where
  -- what a run returned, or `other` where it failed
  abbrev pub value : A → Result A × World → A
  value other (ok a, w) = a
  value other (err e, w) = other
