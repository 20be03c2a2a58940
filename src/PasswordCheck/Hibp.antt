-- ===== src/PasswordCheck/Hibp.antt =====
-- passwordcheck/hibp.go: the client of the range API. `Web` stands for the standard library: SHA-1 in
-- upper-case hex, building and sending a request within a timeout, and reading the lines of the body.
-- The client that WithHIBPHTTPClient sets is part of it. EqualFold of a suffix, which is hex, is that of
-- ASCII.
pub mod Privacy
use sulis.Base.{
  ℕ, ◌*◌, ◌^◌, ◌+◌, Bool, true, false, ◌&&◌, Option, none, some, List, [], ◌∷◌, ◌++◌, ◌==◌, ltb,
  if◌then◌else◌,
}
use sulis.Base.Lists.{take, drop, length}
use sulis.Base.Text.{Text, codes, text_eq, to_lower, trim_space, before, is_empty, contains}
use sulis.Base.Decimal.{read_digits}
use sulis.Error.{Error, Result, ok, err, plain, wrapped, password_compromised}
use sulis.Exec.{Exec, pure, throw, fail, attempt, ◌>>=◌, ◌>>◌}

-- the answer to a request: the status, the lines up to maxHIBPResponse, and what ended their reading
pub record Response : Type 0 where
  pub status_ok : Bool
  pub status : Text
  pub lines : List Text
  pub read_error : Option Error

pub record Web (W : Type 0) : Type 0 where
  pub sha1_upper_hex : Text → Text
  -- http.NewRequestWithContext of the URL
  pub request_error : Text → Option Error
  -- client.Do, for the timeout and the URL
  pub fetch : ℕ → Text → Exec W Response
  -- the error of strconv.ParseInt for the text
  pub parse_error : Text → Error

pub record Hibp : Type 0 where
  pub base_url : Text
  pub timeout : ℕ
  pub fail_closed : Bool

-- strings.TrimRight(url, "/")
unfoldable pub trim_slashes : Text → Text
trim_slashes [] = []
trim_slashes (c ∷ url) =
    let rest = trim_slashes url in
    if is_empty rest then (if c == b'/' then [] else c ∷ []) else c ∷ rest

abbrev pub with_hibp_base_url : Text → Hibp → Hibp
with_hibp_base_url raw_url h = record h { base_url = trim_slashes raw_url ++ codes "/" }

abbrev pub with_hibp_timeout : ℕ → Hibp → Hibp
with_hibp_timeout d h = record h { timeout = d }

abbrev pub with_hibp_fail_closed : Hibp → Hibp
with_hibp_fail_closed h = record h { fail_closed = true }

abbrev pub default_hibp : Hibp
default_hibp = record {
  base_url = codes "https://api.pwnedpasswords.com/range/";
  timeout = 5 * 1000000000;
  fail_closed = false;
}

unfoldable pub new_hibp : List (Hibp → Hibp) → Hibp → Hibp
new_hibp [] h = h
new_hibp (opt ∷ opts) h = new_hibp opts (opt h)

-- the digits of strconv.ParseInt, below the limit: whether the number is positive
unfoldable pub parse_magnitude : Bool → ℕ → Text → Option Bool
parse_magnitude negative limit s =
    let (n, rest) = read_digits 0 s in
    if is_empty s
    then none
    else if is_empty rest && ltb n limit
    then (if negative then some false else some (ltb 0 n))
    else none

-- strconv.ParseInt(s, 10, 64), as far as whether the number is positive
abbrev pub parse_positive : Text → Option Bool
parse_positive [] = none
parse_positive (c ∷ s) =
    if c == b'+'
    then parse_magnitude false (2 ^ 63) s
    else if c == b'-'
    then parse_magnitude true (2 ^ 63 + 1) s
    else parse_magnitude false (2 ^ 63) (c ∷ s)

-- strings.Cut(line, ":") for a line that has the separator: what follows it
abbrev pub after_colon : Text → Text
after_colon line = drop (length (before b':' line) + 1) line

-- ErrMalformedResponse, and what it is about
abbrev pub malformed_response : Text
malformed_response =
    codes "passwordcheck: malformed HIBP response for the queried range"
    ++ codes ": row for matching suffix"

module _ {W : Type 0} (web : Web W) where
  -- the loop over the lines
  unfoldable pub scan_lines : Text → Option Error → List Text → Result Bool
  scan_lines suffix none [] = ok false
  scan_lines suffix (some e) [] = err (wrapped (codes "passwordcheck: reading range response") e)
  scan_lines suffix read_error (line ∷ lines) =
      let rest = scan_lines suffix read_error lines in
      let row = trim_space line in
      let count = trim_space (after_colon row) in
      if contains row (codes ":") && text_eq (to_lower (before b':' row)) (to_lower suffix)
      then elim (parse_positive count) [
        | none ↦ err (wrapped malformed_response (web.parse_error count))
        | some false ↦ rest
        | some true ↦ ok true
      ]
      else rest

  unfoldable pub lookup : Hibp → Text → Text → Exec W Bool
  lookup h prefix suffix =
      let url = h.base_url ++ prefix in
      elim (web.request_error url) [
        | some e ↦ throw (wrapped (codes "passwordcheck: building range request") e)
        | none ↦ do
          sent ← attempt (web.fetch h.timeout url)
          elim sent [
            | err e ↦ throw (wrapped (codes "passwordcheck: range lookup") e)
            | ok response ↦
                if response.status_ok
                then (λ w. (scan_lines suffix response.read_error response.lines, w))
                else throw (
                    plain
                      (codes "passwordcheck: range lookup: unexpected status " ++ response.status))
          ]
      ]

  unfoldable pub check : Hibp → Text → Exec W Unit
  check h password =
      let full = web.sha1_upper_hex password in
      if is_empty password then pure tt else (do
        found ← attempt (lookup h (take 5 full) (drop 5 full))
        elim found [
          | err e ↦ if h.fail_closed then throw e else pure tt
          | ok true ↦ fail password_compromised
          | ok false ↦ pure tt
        ])
