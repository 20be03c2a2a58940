-- ===== src/Tests/Requests.antt =====
-- Examples for the middleware and the rate limiter.
use sulis.Base.{
  ℕ, ◌≡◌, ◌≢◌, ◌≤◌, ◌/◌, ◌+◌, ◌-◌, ltb, leb, if◌then◌else◌, ◌⊎◌, ◌↔◌, refl, true, false, Option,
  none, some, [], ◌∷◌, arith, length,
}
use sulis.Base.Text
use sulis.Base.Text.{Text, codes}
use sulis.Base.Map.{find, lookup}
use sulis.Error.{ok}
use sulis.Model.{Session, User, TokenPurpose, no_request}
use sulis.Service.Guards
use sulis.Service.Sessions
use sulis.Service.Sessions.Validity.{IsLive, SameSession}
use sulis.Service.Tokens.{generate_raw_token}
use sulis.Memstore.Users.{get_user_by_id}
use sulis.Memstore.Sessions.{get_session_by_token_hash, touch_session}
use sulis.Memory.{World}
use sulis.Http
use sulis.Http.{Request, csrf_cookie, both, serve}
use sulis.Http.Defenses.{
  Presents, issued-verify_csrf_token_iff, require_same_origin_sound, authenticate_sound,
}
use sulis.RateLimit.{Floats, MemoryLimiter, allow}
use sulis.RateLimit.Cap.{allow_cap}
use sulis.Tests.{service, world, ann, ticket}

abbrev start : World
start = world TokenPurpose.two_factor

abbrev post : Request
post = record {
  request_method = codes "POST";
  sec_fetch_site = codes "none";
  origin = [];
  authorization = codes "Basic";
  csrf_header = [];
  csrf_form = codes "t";
  cookie = λ name. some (codes "t");
  info = no_request;
}

-- the token that the first question to the source of randomness is answered with
abbrev issued : Text
issued = 32 ∷ 0 ∷ []

abbrev echoing : Request
echoing = record post { csrf_form = issued; cookie = λ name. some issued }

issued-verify_csrf_token_iff_example :
    (Http.verify_csrf_token (codes "c") echoing ≡ ok tt) ↔ (issued ≡ issued)
unfolding Http.issue_csrf_token generate_raw_token
issued-verify_csrf_token_iff_example =
    issued-verify_csrf_token_iff service (codes "c") issued (csrf_cookie (codes "c") issued) start
      (Http.issue_csrf_token service (codes "c") start).1 echoing refl (λ e. cc) refl

unsafe : Http.is_safe_method (codes "POST") ≡ false
unfolding Http.is_safe_method Text.text_eq
unsafe = refl

served :
    Http.require_same_origin service [] post start
    ≡ (ok serve, (Http.require_same_origin service [] post start).1)
unfolding Http.require_same_origin Http.is_safe_method Http.same_origin_verdict Text.text_eq
served = refl

require_same_origin_sound_example :
    ((post.sec_fetch_site ≡ []) × (post.origin ≡ []))
    ⊎ (post.sec_fetch_site ≡ codes "same-origin")
    ⊎ (post.sec_fetch_site ≡ codes "none")
    ⊎ ((post.origin ≢ []) × (Http.is_listed post.origin [] ≡ true))
require_same_origin_sound_example =
    require_same_origin_sound service [] post start
      (Http.require_same_origin service [] post start).1 unsafe served

abbrev browser : Request
browser = record post { authorization = []; cookie = λ name. some (1 ∷ []) }

authenticated :
    Http.authenticate service both (codes "c") browser start
    ≡ (ok (serve, some (ticket, ann)), (Http.authenticate service both (codes "c") browser start).1)
unfolding Http.authenticate Http.extract_token Sessions.validate_session get_session_by_token_hash
    find Text.text_eq get_user_by_id Sessions.touch lookup Guards.idle_expires_at
    Guards.session_touch_interval touch_session
authenticated = refl

authenticate_sound_example :
    (token : Text) × (session : Session) × (user : User) × (stored : Session) × (w1 : World)
    × (token ≢ [])
    × Presents both (codes "c") browser token
    × (◌≡◌ {A = Option (Session × User)} (some (ticket, ann)) (some (session, user)))
    × (service.sessions.get_session_by_token_hash (service.platform.sha256_hex token) start
        ≡ (ok stored, w1))
    × IsLive service stored (service.platform.now w1).0
    × ((service.users.get_user_by_id stored.user_id (service.platform.now w1).1).0 ≡ ok user)
    × (user.disabled_at ≡ none)
    × SameSession service session stored
authenticate_sound_example =
    authenticate_sound service both (codes "c") browser start
      (Http.authenticate service both (codes "c") browser start).1 (some (ticket, ann))
      authenticated

-- whole numbers in place of float64, and nanoseconds in place of seconds
abbrev whole : Floats ℕ
whole = record {
  of_nat = λ n. n;
  add = λ x y. x + y;
  sub = λ x y. x - y;
  div = λ x y. x / y;
  minimum = λ x y. if ltb y x then y else x;
  is_less = ltb;
  is_least = λ x y. leb y x;
  seconds = λ n. n;
  seconds_since = λ later earlier. later - earlier;
}

abbrev one_bucket : MemoryLimiter ℕ
one_bucket = record {
  buckets = (codes "k", record { tokens = 1; last = 100 }) ∷ [];
  budgets = [];
  fallback = record { burst = 2; interval = 3 };
  max_keys = 1;
}

allow_cap_example : length (allow whole 101 101 (codes "j") one_bucket).1.buckets ≤ 1
allow_cap_example = allow_cap whole 101 101 (codes "j") one_bucket (omega arith)
