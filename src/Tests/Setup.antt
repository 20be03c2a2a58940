-- ===== src/Tests/Setup.antt =====
-- Examples for the construction of a service and for IssueCSRFToken.
use sulis.Base.{◌≡◌, ◌↔◌, refl, true, false, [], ◌∷◌, some, none, arith}
use sulis.Base.Text.{Text, codes, text_eq}
use sulis.Error.{ok, user_not_found, session_not_found, token_not_found}
use sulis.Exec.{pure, fail}
use sulis.Service.{UserStore, SessionStore, TokenStore, SecondFactorChecker}
use sulis.Password.Stored.{decode_hash, encode_hash}
use sulis.Password.Stored.RoundTrip.{InBounds}
use sulis.Password.Hashing.{hash_password}
use sulis.Setup.{Surroundings, Instance, default_config, default_argon2, apply_options}
use sulis.Setup.Options.{with_password_length_limits}
use sulis.Setup.Checks.{check_stores, check_settings, validate_cookie_name}
use sulis.Setup.Construction.{new, assembled}
use sulis.Setup.Acceptance.{new-ok_iff, new-hashes, AreSome, HashesDummy, IsSettings}
use sulis.Tests.Hashes.{prims, prims-Documented, zeros}

abbrev surroundings : Surroundings Unit
surroundings = record {
  memory_limiter = record { allow = λ key. pure tt };
  blocklist = record { check = λ password. pure tt };
  cookie_error = λ name content. none;
  quote = λ text. text;
  platform = record {
    now = λ w. (1000, w);
    new_id = λ w. (100, w);
    random_hex = λ n. pure (n ∷ []);
    sha256_hex = λ text. text;
    parse_address = some;
  };
  prims = prims;
}

abbrev users : UserStore Unit
users = record {
  create_user = λ u. pure tt;
  get_user_by_id = λ id. fail user_not_found;
  get_user_by_email = λ email. fail user_not_found;
  update_user = λ u. fail user_not_found;
  delete_user = λ id. pure tt;
}

abbrev sessions : SessionStore Unit
sessions = record {
  create_session = λ x. pure tt;
  get_session_by_token_hash = λ hash. fail session_not_found;
  list_user_sessions = λ user. pure [];
  delete_session = λ user id. pure tt;
  delete_user_sessions = λ user. pure tt;
  delete_user_sessions_except = λ user keep. pure tt;
  clean_expired = pure tt;
  update_authenticated_at = λ id at. pure tt;
  touch_session = λ id at idle. pure tt;
}

abbrev tokens : TokenStore Unit
tokens = record {
  create_token = λ t. pure tt;
  consume_token = λ hash purpose. fail token_not_found;
  delete_expired_tokens = pure tt;
  delete_user_tokens = λ user purpose. pure tt;
}

abbrev factors : SecondFactorChecker Unit
factors = record { has_second_factor = λ user. pure false }

-- the shortest password is longer than the longest one
new-ok_iff_example :
    ((i : Instance Unit) × ((new surroundings
          (some users)
          (some sessions)
          (some tokens)
          (some factors)
          (with_password_length_limits 9 8 ∷ [])
          tt).0
        ≡ ok i))
    ↔ (AreSome (some users) (some sessions) (some tokens) (some factors)
        × IsSettings surroundings
            (apply_options (with_password_length_limits 9 8 ∷ []) (default_config surroundings))
        × HashesDummy surroundings
            (some users)
            (some sessions)
            (some tokens)
            (some factors)
            (with_password_length_limits 9 8 ∷ [])
            tt)
new-ok_iff_example =
    new-ok_iff surroundings (some users) (some sessions) (some tokens) (some factors)
      (with_password_length_limits 9 8 ∷ []) tt

default_argon2-InBounds : InBounds default_argon2
default_argon2-InBounds = record {
  some_thread = omega arith;
  few_threads = omega arith;
  some_round = omega arith;
  few_rounds = omega arith;
  memory_least = omega arith;
  memory_most = omega arith;
  salt_least = omega arith;
  salt_most = omega arith;
  key_least = omega arith;
  key_most = omega arith;
}

abbrev hashed : Text
hashed = encode_hash default_argon2 (zeros 16) (zeros 32)

abbrev made : Instance Unit
made =
    assembled surroundings
      (record { users = users; sessions = sessions; tokens = tokens; factors = factors })
      (default_config surroundings) hashed

new-made :
    new surroundings (some users) (some sessions) (some tokens) (some factors) [] tt ≡ (ok made, tt)
unfolding new check_stores check_settings validate_cookie_name apply_options hash_password text_eq
new-made = refl

new-hashes_example :
    ((salt key : Text) × (decode_hash hashed ≡ ok (default_argon2, salt, key)))
    × (made.sulis.hasher.verify_password (codes "pw") hashed ≡ ok (true, false))
    × (made.sulis.hasher.needs_rehash hashed ≡ false)
unfolding apply_options hash_password
new-hashes_example =
    new-hashes surroundings (some users) (some sessions) (some tokens) (some factors) [] tt tt made
      (codes "pw") (codes "pw") hashed tt tt prims-Documented (λ n u. (zeros n, tt, refl))
      default_argon2-InBounds new-made refl refl
