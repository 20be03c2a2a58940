-- ===== src/PasswordCheck/Hibp/Privacy.antt =====
-- What a check against the range API tells the server, and what it makes of its answers.
use sulis.Base.{
  List, ◌∷◌, Option, ◌⊎◌, ◌≡◌, ◌≢◌, sym, ap, ◌∙◌, true, false, none, some, [], arith, Option-cases,
  inl, inr, ◌++◌,
}
use sulis.Base.Lists.{take, drop}
use sulis.Base.Text.{Text, trim_space, before, to_lower, text_eq_iff}
use sulis.Error.{Error, ok, err, sentinel, password_compromised, Result-cases}
use sulis.PasswordCheck.Hibp.{
  Response, Web, Hibp, lookup, check, scan_lines, after_colon, parse_positive,
}

module _ {W : Type 0} (web : Web W) (h : Hibp) where
  -- A lookup does to the world what the request for the prefix does, whatever the suffix is.
  lookup-world :
      (prefix suffix other : Text) (w : W)
      → (lookup web h prefix suffix w).1 ≡ (lookup web h prefix other w).1
  unfolding lookup
  lookup-world prefix suffix other w =
      elim (Option-cases (web.request_error (h.base_url ++ prefix))) [
        | inl none_wrong ↦ elim (Result-cases (web.fetch h.timeout (h.base_url ++ prefix) w).0) [
          | inl (response, sent) ↦ ground (arith, none_wrong, sent)
          | inr (e, failed) ↦ ground (arith, none_wrong, failed)
        ]
        | inr (e, wrong) ↦ ground (arith, wrong)
      ]

  check-world :
      (password : Text) (w : W)
      → password ≢ []
      → (check web h password w).1
        ≡ (lookup web h
            (take 5 (web.sha1_upper_hex password))
            (drop 5 (web.sha1_upper_hex password))
            w).1
  unfolding check
  check-world password w p =
      let full = web.sha1_upper_hex password in
      elim (Result-cases (lookup web h (take 5 full) (drop 5 full) w).0) [
        | inl (true, found) ↦ ground (arith, p, found)
        | inl (false, missing) ↦ ground (arith, p, missing)
        | inr (e, failed) ↦ ground (arith, p, failed)
      ]

  -- Two passwords that are not empty, and whose hashes begin with the same five digits, are looked up by
  -- the same request: the check of one does to the world what the check of the other does.
  pub check-private :
      (password other : Text) (w : W)
      → password ≢ []
      → other ≢ []
      → take 5 (web.sha1_upper_hex password) ≡ take 5 (web.sha1_upper_hex other)
      → (check web h password w).1 ≡ (check web h other w).1
  check-private password other w p o same =
      let full = web.sha1_upper_hex password in
      let full' = web.sha1_upper_hex other in
      check-world password w p
      ∙ (lookup-world (take 5 full) (drop 5 full) (drop 5 full') w
          ∙ (ap (λ prefix. (lookup web h prefix (drop 5 full') w).1) same
              ∙ sym (check-world other w o)))

  -- the line is one of the suffix, with a count above zero
  abbrev pub IsHit : Text → Text → Type 0
  IsHit suffix line =
      let row = trim_space line in
      (to_lower (before b':' row) ≡ to_lower suffix)
      × (parse_positive (trim_space (after_colon row)) ≡ some true)

  abbrev pub HasHit : Text → List Text → Type 0
  HasHit suffix [] = ⊥
  HasHit suffix (line ∷ lines) = IsHit suffix line ⊎ HasHit suffix lines

  scan_lines-HasHit :
      (suffix : Text) (read_error : Option Error) (lines : List Text)
      → scan_lines web suffix read_error lines ≡ ok true
      → HasHit suffix lines
  unfolding scan_lines
  scan_lines-HasHit suffix none [] h = absurd (ground (arith, h))
  scan_lines-HasHit suffix (some e) [] h = absurd (ground (arith, h))
  scan_lines-HasHit suffix read_error (line ∷ lines) h =
      let row = trim_space line in
      let others = scan_lines-HasHit suffix read_error lines in
      let matched = text_eq_iff (to_lower (before b':' row)) (to_lower suffix) in
      elim (Result-cases (scan_lines web suffix read_error lines)) [
        | inl (true, later) ↦ inr (others later)
        | inl (false, never) ↦ inl (ground (arith, h, never, matched))
        | inr (e, failed) ↦ inl (ground (arith, h, failed, matched))
      ]

  lookup-found :
      (prefix suffix : Text) (w : W)
      → (lookup web h prefix suffix w).0 ≡ ok true
      → (response : Response) × ((web.fetch h.timeout (h.base_url ++ prefix) w).0 ≡ ok response)
        × HasHit suffix response.lines
  unfolding lookup
  lookup-found prefix suffix w found =
      elim (Option-cases (web.request_error (h.base_url ++ prefix))) [
        | inl none_wrong ↦ elim (Result-cases (web.fetch h.timeout (h.base_url ++ prefix) w).0) [
          | inl (response, sent) ↦ (
            response,
            sent,
            scan_lines-HasHit suffix response.read_error response.lines
                (ground (arith, found, none_wrong, sent)),
          )
          | inr (e, failed) ↦ absurd (ground (arith, found, none_wrong, failed))
        ]
        | inr (e, wrong) ↦ absurd (ground (arith, found, wrong))
      ]

  -- Unless WithHIBPFailClosed is chosen, a check refuses a password only as compromised, and only if the
  -- range of the first five digits of its hash was fetched and has a line with the other digits and a
  -- count above zero.
  pub check_fails_open :
      (password : Text) (w : W) (e : Error)
      → h.fail_closed ≡ false
      → (check web h password w).0 ≡ err e
      → let full = web.sha1_upper_hex password in
        (e ≡ sentinel password_compromised)
        × ((response : Response) × ((web.fetch h.timeout (h.base_url ++ take 5 full) w).0
              ≡ ok response)
            × HasHit (drop 5 full) response.lines)
  unfolding check
  check_fails_open password w e opened refused =
      let full = web.sha1_upper_hex password in
      elim (Result-cases (lookup web h (take 5 full) (drop 5 full) w).0) [
        | inl (true, found) ↦
            (ground (arith, refused, found), lookup-found (take 5 full) (drop 5 full) w found)
        | inl (false, missing) ↦ absurd (ground (arith, refused, missing))
        | inr (e', failed) ↦ absurd (ground (arith, refused, failed, opened))
      ]
