-- ===== src/Http/Defenses.antt =====
-- What a request that is served has shown.
use sulis.Base.{
  ◌≡◌, ◌≢◌, ◌↔◌, ◌⊎◌, inl, inr, true, false, Option, none, some, List, [], arith, if◌then◌else◌,
  Option-cases, Bool-cases, ◌&&◌, not, refl,
}
use sulis.Base.Text.{Text, codes, text_eq_iff, is_empty, cut_prefix, trim_space}
use sulis.Error.{ok, Result-cases}
use sulis.Model.{Session, User}
use sulis.Service.{Sulis}
use sulis.Service.Sessions.{validate_session}
use sulis.Service.Sessions.Validity.{IsLive, SameSession, validate_session_sound}
use sulis.Http.{
  TokenSource, both, bearer_only, cookie_only, reads_header, reads_cookie, Request, Cookie,
  issue_csrf_token, serve, verify_csrf_token, extract_token, is_safe_method, is_listed,
  same_origin_verdict, require_same_origin, authenticate,
}

-- VerifyCSRFToken accepts a request exactly if its cookie is present and not empty, and the header, or
-- the form field where the header is empty, repeats the cookie's value.
verify_csrf_token-ok_iff :
    (cookie_name : Text) (r : Request)
    → (verify_csrf_token cookie_name r ≡ ok tt) ↔ (
        (stored : Text) × (r.cookie cookie_name ≡ some stored)
        × (stored ≢ [])
        × ((if is_empty r.csrf_header then r.csrf_form else r.csrf_header) ≡ stored))
unfolding verify_csrf_token
verify_csrf_token-ok_iff cookie_name r =
    let sent = if is_empty r.csrf_header then r.csrf_form else r.csrf_header in
    elim (Option-cases (r.cookie cookie_name)) [
      | inl absent ↦ (λ h. ground (arith, absent), λ h. ground (arith, absent))
      | inr (stored, there) ↦ (
        λ h. (stored, there, ground (arith, there), ground (arith, there, text_eq_iff stored sent)),
        λ h. ground (arith, there, text_eq_iff stored sent),
      )
    ]

-- After IssueCSRFToken has issued a token that is not empty, a request whose cookie of the name is the
-- cookie that was issued passes VerifyCSRFToken exactly if its header, or its form field where the header
-- is empty, is the token.
pub issued-verify_csrf_token_iff :
    {W : Type 0} (s : Sulis W) (cookie_name token : Text) (cookie : Cookie) (w v : W) (r : Request)
    → issue_csrf_token s cookie_name w ≡ (ok (token, cookie), v)
    → token ≢ []
    → r.cookie cookie.name ≡ some cookie.content
    → (verify_csrf_token cookie_name r ≡ ok tt)
      ↔ ((if is_empty r.csrf_header then r.csrf_form else r.csrf_header) ≡ token)
unfolding issue_csrf_token
issued-verify_csrf_token_iff s cookie_name token cookie w v r issued some_token held =
    let named : r.cookie cookie_name ≡ some token = ground (arith, issued, held) in
    let accepts = verify_csrf_token-ok_iff cookie_name r in
    (λ h. ground (arith, accepts.0 h, named), λ h. accepts.1 (token, named, some_token, h))

-- Where the Authorization header is read, a request that has one is never served by its cookies:
-- whatever the cookies are, the token is the same.
authorization_hides_cookies :
    (source : TokenSource) (cookie_name : Text) (r : Request) (jar : Text → Option Text)
    → reads_header source ≡ true
    → r.authorization ≢ []
    → extract_token source cookie_name (record r { cookie = jar })
      ≡ extract_token source cookie_name r
unfolding extract_token
authorization_hides_cookies source cookie_name r jar header given = ground arith

-- the token is one that the request presents: after "Bearer " in an Authorization header that is read,
-- or, where there is none to read, in a cookie that is read
pub data Presents (source : TokenSource) (cookie_name : Text) (r : Request) (token : Text)
    : Type 0 where
  by_header :
      (after : Text)
      → source ≢ cookie_only
      → r.authorization ≢ []
      → cut_prefix r.authorization (codes "Bearer ") ≡ some after
      → token ≡ trim_space after
      → Presents source cookie_name r token
  by_cookie :
      source ≢ bearer_only
      → (r.authorization ≡ []) ⊎ (source ≡ cookie_only)
      → r.cookie cookie_name ≡ some token
      → Presents source cookie_name r token

reads_header-false : (source : TokenSource) → reads_header source ≡ false → source ≡ cookie_only
reads_header-false both h = cc
reads_header-false bearer_only h = cc
reads_header-false cookie_only h = refl

extract_token-Presents :
    (source : TokenSource) (cookie_name : Text) (r : Request) (token : Text)
    → extract_token source cookie_name r ≡ token
    → token ≢ []
    → Presents source cookie_name r token
unfolding extract_token
extract_token-Presents source cookie_name r token h some_token =
    elim (Bool-cases (reads_header source && not (is_empty r.authorization))) [
      | inl header ↦ elim (Option-cases (cut_prefix r.authorization (codes "Bearer "))) [
        | inl other ↦ absurd (ground arith)
        | inr (after, there) ↦
            by_header after (λ e. ground (arith, e, header)) (ground arith) there (ground arith)
      ]
      | inr no_header ↦ elim (Bool-cases (reads_cookie source)) [
        | inr neither ↦ absurd (ground arith)
        | inl read ↦ elim (Option-cases (r.cookie cookie_name)) [
          | inl absent ↦ absurd (ground arith)
          | inr (stored, there) ↦
              by_cookie (λ e. ground (arith, e, read))
                (elim (Bool-cases (is_empty r.authorization)) [
                  | inl empty ↦ inl (ground arith)
                  | inr given ↦ inr (reads_header-false source (ground arith))
                ])
                (ground arith)
        ]
      ]
    ]

module _ {W : Type 0} (s : Sulis W) where
  -- A request of an unsafe method that RequireSameOrigin serves carries neither of the two headers, or
  -- is same-origin or made by the user, or has an Origin on the list.
  pub require_same_origin_sound :
      (allowed : List Text) (r : Request) (w v : W)
      → is_safe_method r.request_method ≡ false
      → require_same_origin s allowed r w ≡ (ok serve, v)
      → ((r.sec_fetch_site ≡ []) × (r.origin ≡ []))
        ⊎ (r.sec_fetch_site ≡ codes "same-origin")
        ⊎ (r.sec_fetch_site ≡ codes "none")
        ⊎ ((r.origin ≢ []) × (is_listed r.origin allowed ≡ true))
  unfolding require_same_origin same_origin_verdict
  require_same_origin_sound allowed r w v unsafe h = ground (
    arith,
    text_eq_iff r.sec_fetch_site (codes "same-origin"),
    text_eq_iff r.sec_fetch_site (codes "none"),
  )

  -- Authenticate serves a request only with a token that the request presents where TokenSource has it
  -- read, and which is not empty: the store has a session under the token's hash, within both of its
  -- deadlines, of a user who is found and not disabled. This user, and this session but for its touch,
  -- are what the request is served with.
  pub authenticate_sound :
      (source : TokenSource) (cookie_name : Text) (r : Request) (w v : W)
      (x : Option (Session × User))
      → authenticate s source cookie_name r w ≡ (ok (serve, x), v)
      → (token : Text) × (session : Session) × (user : User) × (stored : Session) × (w1 : W)
        × (token ≢ [])
        × Presents source cookie_name r token
        × (x ≡ some (session, user))
        × (s.sessions.get_session_by_token_hash (s.platform.sha256_hex token) w ≡ (ok stored, w1))
        × IsLive s stored (s.platform.now w1).0
        × ((s.users.get_user_by_id stored.user_id (s.platform.now w1).1).0 ≡ ok user)
        × (user.disabled_at ≡ none)
        × SameSession s session stored
  unfolding authenticate
  authenticate_sound source cookie_name r w v x h =
      let token = extract_token source cookie_name r in
      elim (Result-cases (validate_session s token w).0) [
        | inl ((session, user), found) ↦
            let some_token : token ≢ [] = ground arith in
            let (stored, w1, kept, live, owned, enabled, same) =
              validate_session_sound s token w (validate_session s token w).1 session user
                (ground arith) in
            (
              token,
              session,
              user,
              stored,
              w1,
              some_token,
              extract_token-Presents source cookie_name r token refl some_token,
              ground arith,
              kept,
              live,
              owned,
              enabled,
              same,
            )
        | inr (e, refused) ↦ absurd (ground arith)
      ]
