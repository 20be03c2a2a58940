-- ===== src/Setup/Checks.antt =====
-- checkStores of sulis.go, validateCookieName of cookie.go, and the checks that New makes of its
-- settings.
use sulis.Base.{Option, none, some, ◌++◌, ltb}
use sulis.Base.Text.{Text, codes, text_eq}
use sulis.Base.Decimal.{print_decimal}
use sulis.Error.{Result, ok, err, plain, wrapped}
use sulis.Error.Chain.{◌>>◌, refuse_if}
use sulis.Service.{UserStore, SessionStore, TokenStore, SecondFactorChecker}
use sulis.Setup.{Surroundings, Settings, Stores}

module _ {W : Type 0} where
  unfoldable pub check_stores :
      Option (UserStore W)
      → Option (SessionStore W)
      → Option (TokenStore W)
      → Option (SecondFactorChecker W)
      → Result (Stores W)
  check_stores none sessions tokens factors = err (plain (codes "sulis: UserStore must not be nil"))
  check_stores (some users) none tokens factors =
      err (plain (codes "sulis: SessionStore must not be nil"))
  check_stores (some users) (some sessions) none factors =
      err (plain (codes "sulis: TokenStore must not be nil"))
  check_stores (some users) (some sessions) (some tokens) none = err (
      plain (
        codes "sulis: SecondFactorChecker must not be nil; pass sulis.NoSecondFactors{} if this "
        ++ codes "application has no second factors"))
  check_stores (some users) (some sessions) (some tokens) (some factors) =
      ok (record { users = users; sessions = sessions; tokens = tokens; factors = factors })

  unfoldable pub validate_cookie_name : Surroundings W → Text → Result (Unit {0})
  validate_cookie_name env name = elim (env.cookie_error name (codes "x")) [
    | none ↦ ok tt
    | some e ↦ err (wrapped (codes "sulis: invalid cookie name " ++ env.quote name) e)
  ]

  unfoldable pub check_settings : Surroundings W → Settings W → Result (Unit {0})
  check_settings env cfg =
      refuse_if (ltb cfg.service.max_password_length cfg.service.min_password_length) (
        plain (
          codes "sulis: minimum password length "
          ++ (print_decimal cfg.service.min_password_length
              ++ (codes " exceeds maximum " ++ print_decimal cfg.service.max_password_length))))
      >> (validate_cookie_name env cfg.cookie_name
          >> (validate_cookie_name env cfg.csrf_cookie_name
              >> refuse_if (text_eq cfg.cookie_name cfg.csrf_cookie_name) (
                  plain (
                    codes "sulis: session and CSRF cookie names must differ; both are "
                    ++ env.quote cfg.cookie_name))))
