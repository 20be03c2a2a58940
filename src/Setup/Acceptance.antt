-- ===== src/Setup/Acceptance.antt =====
-- What New of sulis.go accepts, and what it returns.
use sulis.Base.{
  ℕ, ◌≤◌, ◌≡◌, ◌≢◌, ◌↔◌, refl, ap, subst, ◌∙◌, true, false, Option, none, some, List, is_some, [],
  arith, inl, inr, Option-cases, ◌⊎◌, false,
}
use sulis.Base.Text.{Text, codes, text_eq_iff}
use sulis.Error.{Error, ok, err, Result-cases}
use sulis.Service.{UserStore, SessionStore, TokenStore, SecondFactorChecker}
use sulis.Password.{Argon2Params, Primitives}
use sulis.Password.Stored.{decode_hash, encode_hash}
use sulis.Password.Stored.RoundTrip.{InBounds}
use sulis.Password.Hashing.{hash_password, is_refused, key_of, normalize_password}
use sulis.Password.Hashing.Verdicts.{
  Documented, decode-hash_password, verify_password-hash_password,
}
use sulis.Setup.{Surroundings, Settings, Stores, Instance, default_config, apply_options}
use sulis.Setup.Checks.{check_stores, check_settings, validate_cookie_name}
use sulis.Setup.Construction.{new, assembled, is_panic}

abbrev pub AreSome :
    {W : Type 0}
    → Option (UserStore W)
    → Option (SessionStore W)
    → Option (TokenStore W)
    → Option (SecondFactorChecker W)
    → Type 0
AreSome users sessions tokens factors =
    (is_some users ≡ true)
    × (is_some sessions ≡ true)
    × (is_some tokens ≡ true)
    × (is_some factors ≡ true)

check_stores-some :
    {W : Type 0} (users : Option (UserStore W)) (sessions : Option (SessionStore W))
    (tokens : Option (TokenStore W)) (factors : Option (SecondFactorChecker W))
    → AreSome users sessions tokens factors
    → (stores : Stores W) × (check_stores users sessions tokens factors ≡ ok stores)
unfolding check_stores
check_stores-some none sessions tokens factors h = absurd (ground (arith, h))
check_stores-some (some u) none tokens factors h = absurd (ground (arith, h))
check_stores-some (some u) (some s) none factors h = absurd (ground (arith, h))
check_stores-some (some u) (some s) (some t) none h = absurd (ground (arith, h))
check_stores-some (some u) (some s) (some t) (some f) h = (_, refl)

-- Where crypto/rand does not fail and Argon2 does not panic, hashing does not fail.
hash_password-ok :
    {W : Type 0} (prims : Primitives W)
    → ((n : ℕ) (u : W) → (salt : Text) × (u' : W) × (prims.random_bytes n u ≡ (ok salt, u')))
    → (password : Text) (params : Argon2Params) (pepper : Text) (w : W)
    → is_refused prims params ≡ false
    → (hash : Text) × (u : W) × (hash_password prims password params pepper w ≡ (ok hash, u))
unfolding hash_password
hash_password-ok prims draws password params pepper w accepted =
    let (salt, u, drawn) = draws params.salt_length w in
    (
      encode_hash params salt (key_of prims (normalize_password prims password) pepper params salt),
      u,
      ground (arith, drawn),
    )

abbrev pub dummy_password : Text
dummy_password = codes "sulis-timing-equalization-dummy"

module _ {W : Type 0} (env : Surroundings W) where
  abbrev pub IsName : Text → Type 0
  IsName name = env.cookie_error name (codes "x") ≡ none

  abbrev pub IsSettings : Settings W → Type 0
  IsSettings cfg =
      (cfg.service.min_password_length ≤ cfg.service.max_password_length)
      × IsName cfg.cookie_name
      × IsName cfg.csrf_cookie_name
      × (cfg.cookie_name ≢ cfg.csrf_cookie_name)

  check_settings-ok_iff : (cfg : Settings W) → (check_settings env cfg ≡ ok tt) ↔ IsSettings cfg
  unfolding check_settings validate_cookie_name
  check_settings-ok_iff cfg = (
    λ h. ground (arith, h, text_eq_iff cfg.cookie_name cfg.csrf_cookie_name),
    λ h. ground (arith, h, text_eq_iff cfg.cookie_name cfg.csrf_cookie_name),
  )

  module _ (users : Option (UserStore W)) (sessions : Option (SessionStore W))
      (tokens : Option (TokenStore W)) (factors : Option (SecondFactorChecker W))
      (opts : List (Settings W → Settings W)) where
    abbrev pub chosen : Settings W
    chosen = apply_options opts (default_config env)

    abbrev pub AreStores : Type 0
    AreStores = AreSome users sessions tokens factors

    check_stores-AreStores :
        (stores : Stores W) → check_stores users sessions tokens factors ≡ ok stores → AreStores
    unfolding check_stores
    check_stores-AreStores stores h = ground (
      arith,
      h,
      Option-cases users,
      Option-cases sessions,
      Option-cases tokens,
      Option-cases factors,
    )

    -- the dummy hash is made, or given up for want of a salt, without a panic
    abbrev pub HashesDummy : W → Type 0
    HashesDummy w =
        ((e : Error) × ((env.prims.random_bytes chosen.argon2.salt_length w).0 ≡ err e))
        ⊎ (is_refused env.prims chosen.argon2 ≡ false)

    hash-panics_iff :
        (w : W)
        → (is_panic (hash_password env.prims dummy_password chosen.argon2 chosen.pepper w).0
            ≡ false)
          ↔ HashesDummy w
    unfolding hash_password
    hash-panics_iff w = elim (Result-cases (env.prims.random_bytes chosen.argon2.salt_length w).0) [
      | inl (salt, drawn) ↦ (λ h. inr (ground arith), λ h. ground arith)
      | inr (e, failed) ↦ (λ h. inl (e, failed), λ h. ground arith)
    ]

    -- New returns a service exactly if none of the four stores is nil, the shortest accepted password is
    -- not longer than the longest one, both cookie names are ones that net/http accepts, and they differ,
    -- and Argon2 does not panic with the chosen parameters, or is not reached for want of a salt.
    pub new-ok_iff :
        (w : W)
        → ((i : Instance W) × ((new env users sessions tokens factors opts w).0 ≡ ok i))
          ↔ (AreStores × IsSettings chosen × HashesDummy w)
    unfolding new
    new-ok_iff w = (
      λ h. elim (Result-cases (check_stores users sessions tokens factors)) [
        | inl (stores, there) ↦ elim (Result-cases (check_settings env chosen)) [
          | inl (_, fine) ↦ (
            check_stores-AreStores stores there,
            (check_settings-ok_iff chosen).0 fine,
            (hash-panics_iff w).0 (ground (arith, h.1, there, fine)),
          )
          | inr (e, wrong) ↦ ground (arith, h.1, there, wrong)
        ]
        | inr (e, missing) ↦ ground (arith, h.1, missing)
      ],
      λ h.
          let (stores, there) = check_stores-some users sessions tokens factors h.0 in
          elim (Result-cases (new env users sessions tokens factors opts w).0) [
            | inl made ↦ made
            | inr (e, refused) ↦ absurd (
                ground (
                  arith,
                  refused,
                  there,
                  (check_settings-ok_iff chosen).1 h.1,
                  (hash-panics_iff w).1 h.2,
                ))
          ],
    )

    -- what New returns has been put together from the chosen settings
    new-assembled :
        (w v : W) (i : Instance W)
        → new env users sessions tokens factors opts w ≡ (ok i, v)
        → (stores : Stores W) × (dummy_hash : Text) × (i ≡ assembled env stores chosen dummy_hash)
          × ((x : Text) (u : W)
              → hash_password env.prims dummy_password chosen.argon2 chosen.pepper w ≡ (ok x, u)
              → dummy_hash ≡ x)
    unfolding new
    new-assembled w v i h = elim (Result-cases (check_stores users sessions tokens factors)) [
      | inl (stores, there) ↦ elim (Result-cases (check_settings env chosen)) [
        | inl (_, fine) ↦ (
          stores,
          (elim (hash_password env.prims dummy_password chosen.argon2 chosen.pepper w).0 [
            | ok hash ↦ hash
            | err _ ↦ []
          ]),
          ground (arith, h, there, fine),
          λ x u hashed. ground (arith, hashed),
        )
        | inr (e, wrong) ↦ absurd (ground (arith, h, there, wrong))
      ]
      | inr (e, missing) ↦ absurd (ground (arith, h, missing))
    ]

    -- Argon2 did not panic in a New that returned, where crypto/rand does not fail.
    new-accepted :
        (w v : W) (i : Instance W)
        → ((n : ℕ) (u : W)
            → (salt : Text) × (u' : W) × (env.prims.random_bytes n u ≡ (ok salt, u')))
        → new env users sessions tokens factors opts w ≡ (ok i, v)
        → is_refused env.prims chosen.argon2 ≡ false
    new-accepted w v i draws made =
        let (salt, u, drawn) = draws chosen.argon2.salt_length w in
        elim ((new-ok_iff w).0 (i, ap (λ r. r.0) made)).2 [
          | inl (e, failed) ↦ absurd (ground (arith, failed, drawn))
          | inr accepted ↦ accepted
        ]

    -- Where crypto/rand and Argon2 return as many bytes as they are asked for, and crypto/rand does not
    -- fail, and for chosen Argon2 parameters within the bounds of decodeHash, a service that New returned
    -- has a dummy hash with exactly the chosen parameters; and a password that it hashes it verifies, in
    -- every form of one NFKC form, without asking for another hash.
    pub new-hashes :
        (w v : W) (i : Instance W) (password other encoded : Text) (x y : W)
        → Documented env.prims
        → ((n : ℕ) (u : W)
            → (salt : Text) × (u' : W) × (env.prims.random_bytes n u ≡ (ok salt, u')))
        → InBounds chosen.argon2
        → new env users sessions tokens factors opts w ≡ (ok i, v)
        → env.prims.nfkc other ≡ env.prims.nfkc password
        → i.sulis.hasher.hash_password password x ≡ (ok encoded, y)
        → ((salt key : Text) × (decode_hash i.sulis.dummy_hash ≡ ok (chosen.argon2, salt, key)))
          × (i.sulis.hasher.verify_password other encoded ≡ ok (true, false))
          × (i.sulis.hasher.needs_rehash encoded ≡ false)
    new-hashes w v i password other encoded x y doc draws b made same hashed =
        let (stores, dummy_hash, is, dummies) = new-assembled w v i made in
        let params = chosen.argon2 in
        let hashed' : hash_password env.prims password params chosen.pepper x ≡ (ok encoded, y) =
          subst (λ j. j.sulis.hasher.hash_password password x ≡ (ok encoded, y)) is hashed in
        let (verified, kept) =
          verify_password-hash_password env.prims doc password other chosen.pepper encoded params x
            y b same hashed' in
        let (dummy, u, drawn) =
          hash_password-ok env.prims draws dummy_password params chosen.pepper w
            (new-accepted w v i draws made) in
        let (salt, read) =
          decode-hash_password env.prims doc dummy_password chosen.pepper dummy params w u b
            drawn in
        (
          (
            salt,
            _,
            ap (λ j. decode_hash j.sulis.dummy_hash) is
                ∙ (ap decode_hash (dummies dummy u drawn) ∙ read),
          ),
          ap (λ j. j.sulis.hasher.verify_password other encoded) is ∙ verified,
          ap (λ j. j.sulis.hasher.needs_rehash encoded) is ∙ kept,
        )
