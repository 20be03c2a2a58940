-- ===== src/Setup/Construction.antt =====
-- New and WithStores of sulis.go.
use sulis.Base.{Bool, true, false, Option, List, [], if◌then◌else◌}
use sulis.Base.Text.{Text, codes}
use sulis.Error.{Result, ok, err, panicked, sentinel, foreign, wrapped, plain, joined}
use sulis.Exec.{Exec, pure, throw, lift, attempt, ◌>>=◌, ◌>>◌}
use sulis.Service.{UserStore, SessionStore, TokenStore, SecondFactorChecker}
use sulis.Password.Hashing.{hash_password, primitive_hasher}
use sulis.Setup.{Surroundings, Settings, Stores, Instance, default_config, apply_options}
use sulis.Setup.Checks.{check_stores, check_settings}

-- the call panicked
abbrev pub is_panic : {A : Type 0} → Result A → Bool
is_panic (ok a) = false
is_panic (err panicked) = true
is_panic (err (sentinel s)) = false
is_panic (err (foreign code)) = false
is_panic (err (wrapped message e)) = false
is_panic (err (plain text)) = false
is_panic (err (joined e e')) = false

module _ {W : Type 0} where
  -- the service that New returns
  abbrev pub assembled : Surroundings W → Stores W → Settings W → Text → Instance W
  assembled env stores cfg dummy_hash = record {
    sulis = record {
      users = stores.users;
      sessions = stores.sessions;
      tokens = stores.tokens;
      factors = stores.factors;
      cfg = cfg.service;
      dummy_hash = dummy_hash;
      platform = env.platform;
      hasher = primitive_hasher env.prims cfg.argon2 cfg.pepper;
    };
    settings = cfg;
  }

  -- New, with the error of hashPassword ignored, whose text is empty then; a panic is passed on
  unfoldable pub new :
      Surroundings W
      → Option (UserStore W)
      → Option (SessionStore W)
      → Option (TokenStore W)
      → Option (SecondFactorChecker W)
      → List (Settings W → Settings W)
      → Exec W (Instance W)
  new env users sessions tokens factors opts =
      let cfg = apply_options opts (default_config env) in
      do
        stores ← lift (check_stores users sessions tokens factors)
        lift (check_settings env cfg)
        dummy ← attempt (
            hash_password env.prims (codes "sulis-timing-equalization-dummy") cfg.argon2 cfg.pepper)
        if is_panic dummy then throw panicked else pure tt
        pure (assembled env stores cfg (elim dummy [ ok hash ↦ hash | err _ ↦ [] ]))

  unfoldable pub with_stores :
      Instance W
      → Option (UserStore W)
      → Option (SessionStore W)
      → Option (TokenStore W)
      → Option (SecondFactorChecker W)
      → Result (Instance W)
  with_stores s users sessions tokens factors = elim (check_stores users sessions tokens factors) [
    | err e ↦ err e
    | ok stores ↦ ok (record s {
      sulis = record s.sulis {
        users = stores.users;
        sessions = stores.sessions;
        tokens = stores.tokens;
        factors = stores.factors;
      };
    })
  ]
