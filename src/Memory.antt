-- ===== src/Memory.antt =====
-- The service over package memstore: the world is the three in-memory stores, the events that were
-- sent, and how often the outside was asked.
--
-- `Outside` stands for what the service does not implement: the clock, uuid.NewV7, crypto/rand,
-- SHA-256, net/mail, the hashing of passwords and the second-factor checker. The n-th question has
-- the n-th answer.
pub mod Writes
pub mod Purge
use sulis.Base.{ℕ, suc, ◌+◌, Bool, Option, none, some, List, [], ◌∷◌}
use sulis.Base.Text.{Text}
use sulis.Base.Map.{Map}
use sulis.Error.{Error, Result, ok, err}
use sulis.Exec.{Exec, pure}
use sulis.Model.{User, Session, Token}
use sulis.Model.Event.{Event}
use sulis.Service.{
  Sulis, UserStore, SessionStore, TokenStore, SecondFactorChecker, Platform, Hasher, Config,
  EventSink,
}
use sulis.Memstore.Users
use sulis.Memstore.Sessions
use sulis.Memstore.Tokens

pub record World : Type 0 where
  pub users : Map User
  pub sessions : Map Session
  pub tokens : Map Token
  pub events : List Event
  pub asked : ℕ

pub record Outside : Type 0 where
  pub clock : ℕ → ℕ
  pub id : ℕ → ℕ
  pub random_hex : ℕ → ℕ → Text
  pub sha256_hex : Text → Text
  pub parse_address : Text → Option Text
  pub normalize_password : Text → Text
  pub hash_password : ℕ → Text → Text
  pub verify_password : Text → Text → Result (Bool × Bool)
  pub needs_rehash : Text → Bool
  pub has_second_factor : ℕ → Bool

module _ {A : Type 0} where
  abbrev pub on_users : Exec (Map User) A → Exec World A
  on_users m w = let (r, users) = m w.users in (r, record w { users = users })

  abbrev pub on_sessions : Exec (Map Session) A → Exec World A
  on_sessions m w = let (r, sessions) = m w.sessions in (r, record w { sessions = sessions })

  abbrev pub on_tokens : Exec (Map Token) A → Exec World A
  on_tokens m w = let (r, tokens) = m w.tokens in (r, record w { tokens = tokens })

  abbrev pub ask : (ℕ → A) → World → A × World
  ask f w = (f w.asked, record w { asked = w.asked + 1 })

  -- an answer, and the time at which it was given
  abbrev pub ask_ok : (ℕ → A) → Exec World A
  ask_ok f w = let (a, w') = ask f w in (ok a, w')

-- a sink that keeps the events, the latest first
abbrev pub recorder : EventSink World
recorder = record { emit = λ e w. record w { events = e ∷ w.events } }

module _ (o : Outside) where
  abbrev pub users : UserStore World
  users = record {
    create_user = λ u. on_users (Users.create_user u);
    get_user_by_id = λ id. on_users (Users.get_user_by_id id);
    get_user_by_email = λ email. on_users (Users.get_user_by_email email);
    update_user = λ u. on_users (Users.update_user u);
    delete_user = λ id. on_users (Users.delete_user id);
  }

  abbrev pub sessions : SessionStore World
  sessions = record {
    create_session = λ x. on_sessions (Sessions.create_session x);
    get_session_by_token_hash = λ hash. on_sessions (Sessions.get_session_by_token_hash hash);
    list_user_sessions = λ user. on_sessions (Sessions.list_user_sessions user);
    delete_session = λ user id. on_sessions (Sessions.delete_session user id);
    delete_user_sessions = λ user. on_sessions (Sessions.delete_user_sessions user);
    delete_user_sessions_except =
        λ user keep. on_sessions (Sessions.delete_user_sessions_except user keep);
    clean_expired = λ w. let (t, w') = ask o.clock w in on_sessions (Sessions.clean_expired t) w';
    update_authenticated_at = λ id at. on_sessions (Sessions.update_authenticated_at id at);
    touch_session = λ id at idle. on_sessions (Sessions.touch_session id at idle);
  }

  abbrev pub tokens : TokenStore World
  tokens = record {
    create_token = λ t. on_tokens (Tokens.create_token t);
    consume_token = λ hash purpose. on_tokens (Tokens.consume_token hash purpose);
    delete_expired_tokens =
        λ w. let (t, w') = ask o.clock w in on_tokens (Tokens.delete_expired_tokens t) w';
    delete_user_tokens = λ user purpose. on_tokens (Tokens.delete_user_tokens user purpose);
  }

  abbrev pub platform : Platform World
  platform = record {
    now = ask o.clock;
    new_id = ask o.id;
    random_hex = λ n. ask_ok (o.random_hex n);
    sha256_hex = o.sha256_hex;
    parse_address = o.parse_address;
  }

  abbrev pub hasher : Hasher World
  hasher = record {
    normalize_password = o.normalize_password;
    hash_password = λ password. ask_ok (λ n. o.hash_password n password);
    verify_password = o.verify_password;
    needs_rehash = o.needs_rehash;
  }

  abbrev pub in_memory : Config World → Sulis World
  in_memory cfg = record {
    users = users;
    sessions = sessions;
    tokens = tokens;
    factors = record { has_second_factor = λ user. pure (o.has_second_factor user) };
    cfg = cfg;
    dummy_hash = [];
    platform = platform;
    hasher = hasher;
  }
