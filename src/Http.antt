-- ===== src/Http.antt =====
-- What the HTTP middleware decides: cookie.go, csrf.go and middleware.go. A request is what they read
-- of it; a header or a cookie that is absent is empty, as http.Header.Get has it, and a cookie is
-- `none` where Request.Cookie fails. The responses themselves (401 and 403) are the value of a decision.
pub mod Defenses
use sulis.Base.{
  ℕ, Bool, true, false, ◌&&◌, ◌||◌, not, Option, none, some, List, [], ◌∷◌, if◌then◌else◌,
}
use sulis.Base.Text.{Text, codes, text_eq, is_empty, cut_prefix, trim_space}
use sulis.Error.{Result, ok, err, sentinel, csrf_token_invalid, session_not_found}
use sulis.Exec.{Exec, pure, fail, attempt, ◌>>=◌, ◌>>◌}
use sulis.Model.{Session, User, RequestInfo, nil_id}
use sulis.Model.Event.{EventKind, Reason, reason}
use sulis.Service.{Sulis}
use sulis.Service.Guards.{event, emit}
use sulis.Service.Sessions.{validate_session}
use sulis.Service.Tokens.{generate_raw_token}

pub data TokenSource : Type 0 where
  both bearer_only cookie_only : TokenSource

pub record Request : Type 0 where
  pub request_method : Text
  pub sec_fetch_site : Text
  pub origin : Text
  pub authorization : Text
  pub csrf_header : Text
  pub csrf_form : Text
  pub cookie : Text → Option Text
  pub info : RequestInfo

pub data Decision : Type 0 where
  serve forbid unauthorized : Decision

-- the attributes of a cookie that the service sets
pub record Cookie : Type 0 where
  pub name : Text
  pub content : Text
  pub path : Text
  pub expires : Option ℕ
  pub expires_at_once : Bool
  pub http_only : Bool
  pub secure : Bool
  pub same_site_lax : Bool

unfoldable pub session_cookie : Text → Text → ℕ → Cookie
session_cookie cookie_name raw_token expires = record {
  name = cookie_name;
  content = raw_token;
  path = codes "/";
  expires = some expires;
  expires_at_once = false;
  http_only = true;
  secure = true;
  same_site_lax = true;
}

unfoldable pub clear_session_cookie : Text → Cookie
clear_session_cookie cookie_name = record {
  name = cookie_name;
  content = [];
  path = codes "/";
  expires = some 0;
  expires_at_once = true;
  http_only = true;
  secure = true;
  same_site_lax = true;
}

unfoldable pub is_safe_method : Text → Bool
is_safe_method name =
    text_eq name (codes "GET") || text_eq name (codes "HEAD") || text_eq name (codes "OPTIONS")

unfoldable pub is_listed : Text → List Text → Bool
is_listed origin [] = false
is_listed origin (x ∷ xs) = let rest = is_listed origin xs in text_eq x origin || rest

-- the switch of requireSameOrigin: whether the request passes, and the reason if it does not
unfoldable pub same_origin_verdict : List Text → Request → Bool × Reason
same_origin_verdict allowed r =
    if is_empty r.sec_fetch_site && is_empty r.origin
    then (true, Reason.cross_site)
    else if text_eq r.sec_fetch_site (codes "same-origin")
        || text_eq r.sec_fetch_site (codes "none")
    then (true, Reason.cross_site)
    else if not (is_empty r.origin)
    then (is_listed r.origin allowed, Reason.origin_not_allowed)
    else if text_eq r.sec_fetch_site (codes "same-site")
    then (false, Reason.origin_not_allowed)
    else (false, Reason.cross_site)

unfoldable pub verify_csrf_token : Text → Request → Result (Unit {0})
verify_csrf_token cookie_name r = elim (r.cookie cookie_name) [
  | none ↦ err (sentinel csrf_token_invalid)
  | some stored ↦
      let sent = if is_empty r.csrf_header then r.csrf_form else r.csrf_header in
      if is_empty stored
      then err (sentinel csrf_token_invalid)
      else if is_empty sent
      then err (sentinel csrf_token_invalid)
      else if text_eq stored sent
      then ok tt
      else err (sentinel csrf_token_invalid)
]

-- TokenSource != TokenSourceCookieOnly
abbrev pub reads_header : TokenSource → Bool
reads_header both = true
reads_header bearer_only = true
reads_header cookie_only = false

-- TokenSource != TokenSourceBearerOnly
abbrev pub reads_cookie : TokenSource → Bool
reads_cookie both = true
reads_cookie bearer_only = false
reads_cookie cookie_only = true

unfoldable pub extract_token : TokenSource → Text → Request → Text
extract_token source cookie_name r =
    if reads_header source && not (is_empty r.authorization)
    then elim (cut_prefix r.authorization (codes "Bearer ")) [
      | none ↦ []
      | some after ↦ trim_space after
    ]
    else if reads_cookie source
    then elim (r.cookie cookie_name) [ none ↦ [] | some stored ↦ stored ]
    else []

-- the cookie of IssueCSRFToken, which a script of the page can read
abbrev pub csrf_cookie : Text → Text → Cookie
csrf_cookie cookie_name token = record {
  name = cookie_name;
  content = token;
  path = codes "/";
  expires = none;
  expires_at_once = false;
  http_only = false;
  secure = true;
  same_site_lax = true;
}

abbrev pub csrf_token_bytes : ℕ
csrf_token_bytes = 32

module _ {W : Type 0} (s : Sulis W) where
  -- IssueCSRFToken, with the configured name of the cookie, or CSRFCookieName for the package's function
  unfoldable pub issue_csrf_token : Text → Exec W (Text × Cookie)
  issue_csrf_token cookie_name = do
    generated ← generate_raw_token s csrf_token_bytes
    pure (generated.0, csrf_cookie cookie_name generated.0)

  unfoldable pub require_same_origin : List Text → Request → Exec W Decision
  require_same_origin allowed r =
      let verdict = same_origin_verdict allowed r in
      if is_safe_method r.request_method || verdict.0 then pure serve else (do
        emit s (event EventKind.same_origin_rejected nil_id nil_id r.info (reason verdict.1 ∷ []))
        pure forbid)

  unfoldable pub require_csrf_token : Text → Request → Exec W Decision
  require_csrf_token cookie_name r =
      if is_safe_method r.request_method
      then pure serve
      else elim (verify_csrf_token cookie_name r) [
        | ok _ ↦ pure serve
        | err _ ↦ do
          emit s (
              event EventKind.csrf_rejected nil_id nil_id r.info
                (reason Reason.csrf_token_invalid ∷ []))
          pure forbid
      ]

  -- the session and the user that the request is served with
  unfoldable pub authenticate :
      TokenSource → Text → Request → Exec W (Decision × Option (Session × User))
  authenticate source cookie_name r =
      let token = extract_token source cookie_name r in
      if is_empty token then pure (unauthorized, none) else (do
        validated ← attempt (validate_session s token)
        elim validated [ err _ ↦ pure (unauthorized, none) | ok found ↦ pure (serve, some found) ])
