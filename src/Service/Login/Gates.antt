-- ===== src/Service/Login/Gates.antt =====
-- What a login has passed when it returns: completeFirstFactor of issue.go, VerifyPassword of
-- sulis.go.
use sulis.Base.{
  sym, subst, ap, ◌++◌, [], ◌≡◌, ◌≢◌, refl, ◌⊎◌, inl, inr, Bool, true, false, not, arith, is_some,
}
use sulis.Base.Text.{Text, is_empty, codes}
use sulis.Error.{Error, Result, ok, err, sentinel, errors_is, user_not_found, invalid_credentials}
use sulis.Exec.{>>=-eq-ok, lift}
use sulis.Model.Event.{EventKind}
use sulis.Model.{nil_id, User, AuthMethod, LoginResult, RequestInfo}
use sulis.Service.{Sulis}
use sulis.Service.Guards.{
  allow, allow_ip, event, emit, normalize_email, account_status, require_verified_email,
}
use sulis.Service.Guards.Gates.{IsVerified, IsActive}
use sulis.Service.Login.{
  complete_first_factor, judge, check_password, right_password, upgrade_hash, wrong_password,
  emit_login_failed, verify_password, login,
}

data Verdict (r : Result (Bool × Bool)) : Type 0 where
  refused : (e : Error) → r ≡ err e → Verdict r
  matched : (legacy : Bool) → r ≡ ok (true, legacy) → Verdict r
  unmatched : (legacy : Bool) → r ≡ ok (false, legacy) → Verdict r

verdict : (r : Result (Bool × Bool)) → Verdict r
verdict (err e) = refused e refl
verdict (ok (true, legacy)) = matched legacy refl
verdict (ok (false, legacy)) = unmatched legacy refl

module _ {W : Type 0} (s : Sulis W) where
  -- The first factor counts only for an active account whose address is verified where that is
  -- required; a session comes with it exactly if the second-factor checker said that none is
  -- enrolled.
  pub complete_first_factor-ok :
      (user : User) (how : AuthMethod) (ri : RequestInfo) (w v : W) (r : LoginResult)
      → complete_first_factor s user how ri w ≡ (ok r, v)
      → IsActive user (s.platform.now w).0
        × IsVerified s user
        × ((s.factors.has_second_factor user.id (account_status s user w).1).0
            ≡ ok r.needs_second_factor)
        × (is_some r.session ≡ not r.needs_second_factor)
        × (r.user ≡ user)
  unfolding complete_first_factor account_status require_verified_email
  complete_first_factor-ok user how ri w v r h = (
    record { enabled = ground arith; unlocked = λ until e. ground arith },
    ground arith,
    ground arith,
    ground arith,
    ground arith,
  )

  -- There is no such user, or the user has no password, or the password is not the user's.
  abbrev pub NoMatch : Result User → Text → Type 0
  NoMatch (err e) password = errors_is e user_not_found ≡ true
  NoMatch (ok user) password =
      (is_empty user.password_hash ≡ true)
      ⊎ ((legacy : Bool) × (s.hasher.verify_password password user.password_hash
            ≡ ok (false, legacy)))

  -- Without automatic lockout, an unknown address, an account with no password and a wrong password
  -- are refused with one and the same error, whatever the status of the account.
  pub judge_uniform :
      (found : Result User) (password : Text) (ri : RequestInfo) (w : W)
      → s.cfg.failure_lockout_threshold ≡ 0
      → NoMatch found password
      → (judge s found password ri w).0 ≡ err (sentinel invalid_credentials)
  unfolding judge check_password wrong_password emit_login_failed emit
  judge_uniform (err e) password ri w off h = ground arith
  judge_uniform (ok user) password ri w off (inl empty) = ground arith
  judge_uniform (ok user) password ri w off (inr (legacy, wrong)) = ground arith

  -- Where a password check returns a user, the user's stored hash matched the password, and the
  -- account was active at a reading of the clock.
  abbrev pub Matched : User → Text → Type 0
  Matched user password =
      (is_empty user.password_hash ≡ false)
      × ((legacy : Bool) × (s.hasher.verify_password password user.password_hash
            ≡ ok (true, legacy)))
      × ((x : W) × IsActive user (s.platform.now x).0)

  right_password-IsActive :
      (user u : User) (password : Text) (legacy : Bool) (ri : RequestInfo) (w v : W)
      → right_password s user password legacy ri w ≡ (ok u, v)
      → (u ≡ user) × ((x : W) × IsActive user (s.platform.now x).0)
  unfolding right_password account_status
  right_password-IsActive user u password legacy ri w v h = (
    ground arith,
    (
      (upgrade_hash s user password legacy ri
          (event EventKind.password_legacy_form_matched user.id nil_id ri []) w).1,
      record { enabled = ground arith; unlocked = λ until e. ground arith },
    ),
  )

  not_wrong_password :
      (user u : User) (ri : RequestInfo) (w v : W) → wrong_password s user ri w ≢ (ok u, v)
  unfolding wrong_password
  not_wrong_password user u ri w v h = ground arith

  check_password-Matched :
      (user u : User) (password : Text) (ri : RequestInfo) (w v : W)
      → check_password s user password ri w ≡ (ok u, v)
      → (u ≡ user) × Matched user password
  unfolding check_password
  check_password-Matched user u password ri w v h =
      elim (verdict (s.hasher.verify_password password user.password_hash)) [
        | refused e r ↦ absurd (ground arith)
        | unmatched legacy r ↦ absurd (ground (arith, not_wrong_password user u ri w v))
        | matched legacy r ↦
            let (same, active) =
              right_password-IsActive user u password legacy ri w v (ground arith) in
            (same, (ground arith, (legacy, r), active))
      ]

  judge-Matched :
      (found : Result User) (u : User) (password : Text) (ri : RequestInfo) (w v : W)
      → judge s found password ri w ≡ (ok u, v)
      → (found ≡ ok u) × Matched u password
  unfolding judge
  judge-Matched (err e) u password ri w v h = absurd (ground arith)
  judge-Matched (ok user) u password ri w v h =
      let (same, match) = check_password-Matched user u password ri w v h in
      (ap ok (sym same), subst (λ x. Matched x password) (sym same) match)

  -- VerifyPassword returns a user only if the store answered with it for the normalized address, its
  -- stored hash matched the password, and the account was neither disabled nor, at a reading of the
  -- clock, locked.
  verify_password_sound :
      (raw_email password : Text) (ri : RequestInfo) (w v : W) (u : User)
      → verify_password s raw_email password ri w ≡ (ok u, v)
      → ((email : Text) × (x : W) × (normalize_email s.platform.parse_address raw_email ≡ ok email)
          × ((s.users.get_user_by_email email x).0 ≡ ok u))
        × Matched u password
  unfolding verify_password
  verify_password_sound raw_email password ri w v u h =
      let (email, w1, e1, h1) =
        >>=-eq-ok (lift (normalize_email s.platform.parse_address raw_email)) _ w h in
      let (_, w2, _, h2) = >>=-eq-ok (allow_ip s (codes "password:") ri) _ w1 h1 in
      let (_, w3, _, h3) = >>=-eq-ok (allow s (codes "password:" ++ email) ri) _ w2 h2 in
      let (found, match) =
        judge-Matched (s.users.get_user_by_email email w3).0 u password ri
          (s.users.get_user_by_email email w3).1 v h3 in
      ((email, w3, cc e1, found), match)

  -- Login returns a result only for a password that matched an active account with a verified address,
  -- where that is required. It holds a session exactly if the second-factor checker said that the
  -- account has no second factor.
  pub login_sound :
      (raw_email password : Text) (ri : RequestInfo) (w v : W) (r : LoginResult)
      → login s raw_email password ri w ≡ (ok r, v)
      → Matched r.user password
        × IsVerified s r.user
        × ((x : W) × ((s.factors.has_second_factor r.user.id x).0 ≡ ok r.needs_second_factor))
        × (is_some r.session ≡ not r.needs_second_factor)
  unfolding login
  login_sound raw_email password ri w v r h =
      let (user, w1, verified, h1) = >>=-eq-ok (verify_password s raw_email password ri) _ w h in
      let (_, match) = verify_password_sound raw_email password ri w w1 user verified in
      let (_, verified_email, factors, shape, same) =
        complete_first_factor-ok user AuthMethod.password ri w1 v r h1 in
      subst
        (λ u.
          Matched u password
          × IsVerified s u
          × ((x : W) × ((s.factors.has_second_factor u.id x).0 ≡ ok r.needs_second_factor))
          × (is_some r.session ≡ not r.needs_second_factor))
        (sym same) (match, verified_email, ((account_status s user w1).1, factors), shape)
