-- ===== src/Totp/Construction/Acceptance.antt =====
-- What NewService of totp/totp.go accepts.
use sulis.Base.{
  ◌≤◌, ◌≡◌, ◌≢◌, ◌↔◌, refl, true, false, not, Option, none, some, List, [], is_some, arith, inl,
  inr,
}
use sulis.Base.Text.{Text, codes, contains}
use sulis.Error.{ok, Result-cases}
use sulis.Totp.{TotpStore, TotpService}
use sulis.Totp.Construction.{
  Kit, TotpSettings, apply_options, default_settings, check_settings, new_service,
}

module _ {W : Type 0} where
  pub record IsAccepted (cfg : TotpSettings W) : Type 0 where
    -- secrets are encrypted, or deliberately not
    pub encryption : is_some cfg.core.encryptor ≡ not cfg.no_encryption
    -- and checks are limited, or deliberately not
    pub limiting : is_some cfg.core.limiter ≡ not cfg.no_rate_limiting
    pub some_issuer : cfg.issuer ≢ []
    pub no_colon : contains cfg.issuer (codes ":") ≡ false
    pub digits_least : 6 ≤ cfg.core.digits
    pub digits_most : cfg.core.digits ≤ 8
    pub period_least : 15 ≤ cfg.core.period
    pub period_most : cfg.core.period ≤ 300
    pub skew_most : cfg.core.skew ≤ 4
    pub secret_least : 16 ≤ cfg.secret_size

  check_settings-IsAccepted : (cfg : TotpSettings W) → check_settings cfg ≡ ok tt → IsAccepted cfg
  unfolding check_settings
  check_settings-IsAccepted cfg h = record {
    encryption = ground (arith, h);
    limiting = ground (arith, h);
    some_issuer = ground (arith, h);
    no_colon = ground (arith, h);
    digits_least = ground (arith, h);
    digits_most = ground (arith, h);
    period_least = ground (arith, h);
    period_most = ground (arith, h);
    skew_most = ground (arith, h);
    secret_least = ground (arith, h);
  }

  IsAccepted-check_settings : (cfg : TotpSettings W) → IsAccepted cfg → check_settings cfg ≡ ok tt
  unfolding check_settings
  IsAccepted-check_settings cfg a = ground (
    arith, a.encryption, a.limiting, a.some_issuer, a.no_colon, a.digits_least, a.digits_most,
    a.period_least, a.period_most, a.skew_most, a.secret_least,
  )

  -- NewService of package totp returns a service, which has the chosen configuration, exactly if the
  -- store is not nil, either of encryption and plaintext and either of a limiter and none was chosen and
  -- not both, the issuer is not empty and has no colon, a code has 6 to 8 digits, a period 15 to 300
  -- seconds, the window at most 4 periods on each side, and a secret at least 16 bytes.
  pub new_service-ok_iff :
      (kit : Kit W) (store : Option (TotpStore W)) (issuer : Text)
      (opts : List (TotpSettings W → TotpSettings W))
      → let chosen = apply_options opts (default_settings issuer) in
        ((s : TotpService W) × (new_service kit store issuer opts ≡ ok s) × (s.cfg ≡ chosen.core))
        ↔ ((is_some store ≡ true) × IsAccepted chosen)
  unfolding new_service
  new_service-ok_iff kit none issuer opts =
      (λ h. absurd (ground (arith, h.1)), λ h. absurd (ground (arith, h.0)))
  new_service-ok_iff kit (some s) issuer opts =
      let chosen = apply_options opts (default_settings issuer) in
      (
        λ h. (
          refl,
          check_settings-IsAccepted chosen (elim (Result-cases (check_settings chosen)) [
            | inl (_, fine) ↦ fine
            | inr (e, wrong) ↦ absurd (ground (arith, h.1, wrong))
          ]),
        ),
        λ h.
            let fine = IsAccepted-check_settings chosen h.1 in
            elim (Result-cases (new_service kit (some s) issuer opts)) [
              | inl (t, made) ↦ (t, made, ground (arith, made, fine))
              | inr (e, refused) ↦ absurd (ground (arith, refused, fine))
            ],
      )
