-- ===== src/Totp/Construction.antt =====
-- Config, the options, NewService and buildOTPAuthURI of totp/totp.go. What `TotpService` keeps of the
-- configuration is `core`.
--
-- `Kit` stands for the standard library: the clock, uuid.NewV7, base32 of so many bytes of crypto/rand,
-- HMAC by its hash function, and the two escapings of net/url. An interface value is `none` where it is
-- nil; Digits and SecretSize, which are signed, are not negative.
pub mod Acceptance
use sulis.Base.{
  ℕ, Bool, true, false, ◌&&◌, ◌||◌, not, Option, none, some, List, [], ◌∷◌, ◌++◌, ltb, is_some,
  if◌then◌else◌,
}
use sulis.Base.Text.{Text, codes, is_empty, contains}
use sulis.Base.Decimal.{print_decimal}
use sulis.Error.{Result, ok, err, plain}
use sulis.Error.Chain.{◌>>=◌, ◌>>◌, refuse_if, or_error}
use sulis.Exec.{Exec}
use sulis.Service.{Limiter}
use sulis.Totp.{TotpStore, TotpConfig, TotpService, Encryptor}

-- the named values of the integer type, of which any other acts as sha1
pub data Algorithm : Type 0 where
  sha1 sha256 sha512 : Algorithm

abbrev pub algorithm_name : Algorithm → Text
algorithm_name Algorithm.sha256 = codes "SHA256"
algorithm_name Algorithm.sha512 = codes "SHA512"
algorithm_name Algorithm.sha1 = codes "SHA1"

pub record Kit (W : Type 0) : Type 0 where
  pub now : W → ℕ × W
  pub new_id : W → ℕ × W
  pub random_base32 : ℕ → Exec W Text
  pub decode_base32 : Text → Option (List ℕ)
  pub hmac_with : Algorithm → List ℕ → List ℕ → List ℕ
  pub path_escape : Text → Text
  pub query_escape : Text → Text

pub record TotpSettings (W : Type 0) : Type 0 where
  pub issuer : Text
  pub algorithm : Algorithm
  pub secret_size : ℕ
  pub no_encryption : Bool
  pub no_rate_limiting : Bool
  pub core : TotpConfig W

module _ {W : Type 0} where
  abbrev pub on_core : (TotpConfig W → TotpConfig W) → TotpSettings W → TotpSettings W
  on_core f c = record c { core = f c.core }

  abbrev pub with_algorithm : Algorithm → TotpSettings W → TotpSettings W
  with_algorithm a c = record c { algorithm = a }

  abbrev pub with_digits : ℕ → TotpSettings W → TotpSettings W
  with_digits d = on_core λ c. record c { digits = d }

  abbrev pub with_period : ℕ → TotpSettings W → TotpSettings W
  with_period p = on_core λ c. record c { period = p }

  abbrev pub with_skew : ℕ → TotpSettings W → TotpSettings W
  with_skew s = on_core λ c. record c { skew = s }

  abbrev pub with_secret_size : ℕ → TotpSettings W → TotpSettings W
  with_secret_size n c = record c { secret_size = n }

  abbrev pub with_limiter : Option (Limiter W) → TotpSettings W → TotpSettings W
  with_limiter l = on_core λ c. record c { limiter = l }

  abbrev pub without_rate_limiting : TotpSettings W → TotpSettings W
  without_rate_limiting c = record c { no_rate_limiting = true }

  abbrev pub with_encryptor : Option (Encryptor W) → TotpSettings W → TotpSettings W
  with_encryptor e = on_core λ c. record c { encryptor = e }

  abbrev pub without_secret_encryption : TotpSettings W → TotpSettings W
  without_secret_encryption c = record c { no_encryption = true }

  abbrev pub default_settings : Text → TotpSettings W
  default_settings issuer = record {
    issuer = issuer;
    algorithm = Algorithm.sha1;
    secret_size = 20;
    no_encryption = false;
    no_rate_limiting = false;
    core = record { digits = 6; period = 30; skew = 1; limiter = none; encryptor = none };
  }

  -- the loop over the options
  unfoldable pub apply_options :
      List (TotpSettings W → TotpSettings W) → TotpSettings W → TotpSettings W
  apply_options [] cfg = cfg
  apply_options (opt ∷ opts) cfg = apply_options opts (opt cfg)

  -- the cases of the switch after the store's
  unfoldable pub check_settings : TotpSettings W → Result (Unit {0})
  check_settings cfg =
      refuse_if (not (is_some cfg.core.encryptor) && not cfg.no_encryption) (
        plain (
          codes "totp: pass WithEncryptor to encrypt stored secrets, or "
          ++ codes "WithoutSecretEncryption to store them as plaintext deliberately"))
      >> (refuse_if (is_some cfg.core.encryptor && cfg.no_encryption)
            (plain (codes "totp: WithEncryptor and WithoutSecretEncryption are contradictory"))
          >> (refuse_if (not (is_some cfg.core.limiter) && not cfg.no_rate_limiting) (
                plain (
                  codes "totp: pass WithLimiter to rate-limit code checks, or "
                  ++ codes "WithoutRateLimiting to run without one deliberately"))
              >> (refuse_if (is_some cfg.core.limiter && cfg.no_rate_limiting)
                    (plain (codes "totp: WithLimiter and WithoutRateLimiting are contradictory"))
                  >> (refuse_if (is_empty cfg.issuer || contains cfg.issuer (codes ":"))
                        (plain (codes "totp: issuer must be non-empty and contain no ':'"))
                      >> (refuse_if (ltb cfg.core.digits 6 || ltb 8 cfg.core.digits) (
                            plain (
                              codes "totp: digits must be 6-8, got "
                              ++ print_decimal cfg.core.digits))
                          >> (refuse_if (ltb cfg.core.period 15 || ltb 300 cfg.core.period) (
                                plain (
                                  codes "totp: period must be 15-300 seconds, got "
                                  ++ print_decimal cfg.core.period))
                              >> (refuse_if (ltb 4 cfg.core.skew) (
                                    plain (
                                      codes "totp: skew must be at most 4, got "
                                      ++ print_decimal cfg.core.skew))
                                  >> refuse_if (ltb cfg.secret_size 16) (
                                      plain (
                                        codes "totp: secret size must be at least 16 bytes, got "
                                        ++ print_decimal cfg.secret_size)))))))))

  unfoldable pub new_service :
      Kit W
      → Option (TotpStore W)
      → Text
      → List (TotpSettings W → TotpSettings W)
      → Result (TotpService W)
  new_service kit store issuer opts =
      let cfg = apply_options opts (default_settings issuer) in
      do
        s ← or_error store (plain (codes "totp: store must not be nil"))
        check_settings cfg
        ok (record {
          store = s;
          cfg = cfg.core;
          now = kit.now;
          new_id = kit.new_id;
          random_secret = kit.random_base32 cfg.secret_size;
          decode_base32 = kit.decode_base32;
          hmac = kit.hmac_with cfg.algorithm;
        })

  -- url.Values.Encode sorts its keys
  unfoldable pub build_otpauth_uri : Kit W → Text → Text → Text → TotpSettings W → Text
  build_otpauth_uri kit issuer account secret cfg =
      codes "otpauth://totp/"
      ++ (kit.path_escape issuer
          ++ (codes ":"
              ++ (kit.path_escape account
                  ++ (codes "?algorithm="
                      ++ (algorithm_name cfg.algorithm
                          ++ (codes "&digits="
                              ++ (print_decimal cfg.core.digits
                                  ++ (codes "&issuer="
                                      ++ (kit.query_escape issuer
                                          ++ (codes "&period="
                                              ++ (print_decimal cfg.core.period
                                                  ++ (codes "&secret="
                                                      ++ kit.query_escape secret))))))))))))
