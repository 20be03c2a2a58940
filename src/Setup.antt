-- ===== src/Setup.antt =====
-- config.go and the construction of a service in sulis.go: the settings with their defaults, the
-- options, and New and WithStores with their checks.
--
-- `Surroundings` stands for what New takes from elsewhere: the limiter of NewMemoryLimiter and the
-- checker of passwordcheck.NewBlocklist, net/http's Cookie.Valid, the quoting of %q, and the platform
-- and the primitives of the service. An interface value is `none` where it is nil.
pub mod Options
pub mod Checks
pub mod Construction
pub mod Acceptance
use sulis.Base.{ℕ, ◌*◌, true, Option, none, some, List, [], ◌∷◌}
use sulis.Base.Text.{Text, codes}
use sulis.Error.{Error}
use sulis.Service.{
  Sulis, Config, UserStore, SessionStore, TokenStore, SecondFactorChecker, Limiter, PasswordChecker,
  Platform,
}
use sulis.Http.{TokenSource}
use sulis.Password.{Argon2Params, Primitives}

pub record Surroundings (W : Type 0) : Type 0 where
  pub memory_limiter : Limiter W
  pub blocklist : PasswordChecker W
  -- what a cookie with the name and the value is refused with
  pub cookie_error : Text → Text → Option Error
  pub quote : Text → Text
  pub platform : Platform W
  pub prims : Primitives W

-- Config: what the service reads, and what its hashing and its HTTP helpers read
pub record Settings (W : Type 0) : Type 0 where
  pub service : Config W
  pub argon2 : Argon2Params
  pub pepper : Text
  pub cookie_name : Text
  pub csrf_cookie_name : Text
  pub token_source : TokenSource

-- the four stores of a service
pub record Stores (W : Type 0) : Type 0 where
  pub users : UserStore W
  pub sessions : SessionStore W
  pub tokens : TokenStore W
  pub factors : SecondFactorChecker W

-- a *Sulis: the service, and the rest of its configuration
pub record Instance (W : Type 0) : Type 0 where
  pub sulis : Sulis W
  pub settings : Settings W

-- time.Second
abbrev pub second : ℕ
second = 1000000000

abbrev pub minute : ℕ
minute = 60 * second

abbrev pub hour : ℕ
hour = 60 * minute

abbrev pub default_cookie_name : Text
default_cookie_name = codes "__Host-session"

abbrev pub default_csrf_cookie_name : Text
default_csrf_cookie_name = codes "__Host-csrf_token"

abbrev pub default_argon2 : Argon2Params
default_argon2 = record {
  memory = 64 * 1024;
  iterations = 3;
  parallelism = 2;
  salt_length = 16;
  key_length = 32;
}

module _ {W : Type 0} where
  abbrev pub default_config : Surroundings W → Settings W
  default_config env = record {
    service = record {
      session_duration = 24 * hour;
      token_duration = 1 * hour;
      magic_link_duration = 15 * minute;
      two_factor_token_duration = 5 * minute;
      email_verification_token_duration = 24 * hour;
      session_token_bytes = 32;
      reset_token_bytes = 32;
      revoke_sessions_on_password_change = true;
      require_verified_email = true;
      magic_link_binding = true;
      min_password_length = 12;
      max_password_length = 1024;
      limiter = some env.memory_limiter;
      password_checker = some env.blocklist;
      failure_lockout_threshold = 0;
      failure_lockout_base_backoff = 0;
      failure_lockout_max_backoff = 0;
      idle_timeout = 0;
      event_sink = none;
    };
    argon2 = default_argon2;
    pepper = [];
    cookie_name = default_cookie_name;
    csrf_cookie_name = default_csrf_cookie_name;
    token_source = TokenSource.both;
  }

  -- the loop over the options
  unfoldable pub apply_options : List (Settings W → Settings W) → Settings W → Settings W
  apply_options [] cfg = cfg
  apply_options (opt ∷ opts) cfg = apply_options opts (opt cfg)
