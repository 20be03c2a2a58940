-- ===== src/Tests/Contention.antt =====
-- An example for updateUserWithRetry while another request writes.
use sulis.Base.{refl, List, [], ◌∷◌, some, none, arith, false}
use sulis.Base.Map.{lookup}
use sulis.Base.Text.{codes}
use sulis.Error.{session_not_found, token_not_found, ok}
use sulis.Exec.{pure, fail}
use sulis.Model.{User}
use sulis.Service.{Sulis}
use sulis.Service.Users.{update_user_with_retry}
use sulis.Service.Users.Contention.{
  Contended, contended, contended_users, mutation, WasStored, HasLanded,
  update_user_with_retry-lands,
}
use sulis.Memstore.Users.Validity.{Write, updates, IsValid}
use sulis.Tests.{ann}

-- a service of which only the users are of interest
abbrev service : Sulis Contended
service = record {
  users = contended_users;
  sessions = record {
    create_session = λ x. pure tt;
    get_session_by_token_hash = λ hash. fail session_not_found;
    list_user_sessions = λ user. pure [];
    delete_session = λ user id. pure tt;
    delete_user_sessions = λ user. pure tt;
    delete_user_sessions_except = λ user keep. pure tt;
    clean_expired = pure tt;
    update_authenticated_at = λ id at. pure tt;
    touch_session = λ id at idle. pure tt;
  };
  tokens = record {
    create_token = λ t. pure tt;
    consume_token = λ hash purpose. fail token_not_found;
    delete_expired_tokens = pure tt;
    delete_user_tokens = λ user purpose. pure tt;
  };
  factors = record { has_second_factor = λ user. pure false };
  cfg = record {
    session_duration = 500;
    token_duration = 100;
    magic_link_duration = 100;
    two_factor_token_duration = 100;
    email_verification_token_duration = 100;
    session_token_bytes = 32;
    reset_token_bytes = 32;
    revoke_sessions_on_password_change = false;
    require_verified_email = false;
    magic_link_binding = false;
    min_password_length = 1;
    max_password_length = 64;
    limiter = none;
    password_checker = none;
    failure_lockout_threshold = 0;
    failure_lockout_base_backoff = 1;
    failure_lockout_max_backoff = 1;
    idle_timeout = 0;
    event_sink = none;
  };
  dummy_hash = [];
  platform = record {
    now = λ w. (1000, w);
    new_id = λ w. (100, w);
    random_hex = λ n. pure (n ∷ []);
    sha256_hex = λ text. text;
    parse_address = some;
  };
  hasher = record {
    normalize_password = λ password. password;
    hash_password = λ password. pure password;
    verify_password = λ password hash. ok (false, false);
    needs_rehash = λ hash. false;
  };
}

abbrev rehash : User → User
rehash u = record u { password_hash = codes "new" }

-- the other request writes after the first two reads, and each time makes the read row stale
abbrev meddled : List Write
meddled =
    updates (record ann { updated_at = 11 })
    ∷ updates (record ann { updated_at = 12; version = 4 })
    ∷ []

ann_alone : IsValid ((7, ann) ∷ [])
unfolding lookup
ann_alone = record {
  distinct = ground arith;
  keyed = λ id u h. ground arith;
  unique = λ i j u v hi hj e. ground arith;
}

update_user_with_retry-lands_example :
    (row : User) × WasStored 7 rehash (λ u. tt) row ((7, ann) ∷ []) meddled
    × HasLanded 7 rehash
        (λ u. tt)
        row
        (update_user_with_retry
          (contended service)
          7
          (mutation 7 rehash (λ u. tt))
          (record { users = (7, ann) ∷ []; others = meddled }))
unfolding lookup
update_user_with_retry-lands_example =
    update_user_with_retry-lands 7 rehash (λ u. tt) service ((7, ann) ∷ []) meddled ann
      (λ u. (refl, refl, refl)) ann_alone (tt, (tt, tt)) (omega arith) refl
