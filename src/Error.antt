-- ===== src/Error.antt =====
-- errors.go: the sentinel errors, wrapping by %w and errors.Is; errRehashPasswordChanged of sulis.go,
-- errAlreadyVerified of emailverification.go, and the sentinels of packages totp,
-- recovery and passkey. An error of a store, a limiter or another package
-- that no sentinel matches is `foreign`.
pub mod Chain
use sulis.Base.{ℕ, ◌≡◌, refl, ◌⊎◌, inl, inr, Bool, false, ◌||◌, ◌==◌}
use sulis.Base.Text.{Text}

pub data Sentinel : Type 0 where
  user_not_found user_already_exists concurrent_update : Sentinel
  invalid_credentials not_authenticated : Sentinel
  session_not_found session_expired reauth_required : Sentinel
  token_invalid token_not_found token_expired token_already_used : Sentinel
  password_too_short password_too_long password_compromised : Sentinel
  invalid_email email_not_verified rate_limited : Sentinel
  account_disabled account_locked csrf_token_invalid : Sentinel
  rehash_password_changed already_verified : Sentinel
  totp_invalid totp_not_enrolled totp_already_enrolled : Sentinel
  totp_not_verified totp_replayed totp_rate_limited : Sentinel
  code_not_found code_invalid code_rate_limited : Sentinel
  passkey_not_found challenge_failed challenge_expired clone_warning : Sentinel
  invalid_user ceremony_body_too_large last_credential : Sentinel
  user_handle_mismatch challenge_not_found : Sentinel

-- a number for each sentinel, which stands for its address
abbrev pub address : Sentinel → ℕ
address user_not_found = 0
address user_already_exists = 1
address concurrent_update = 2
address invalid_credentials = 3
address not_authenticated = 4
address session_not_found = 5
address session_expired = 6
address reauth_required = 7
address token_invalid = 8
address token_not_found = 9
address token_expired = 10
address token_already_used = 11
address password_too_short = 12
address password_too_long = 13
address password_compromised = 14
address invalid_email = 15
address email_not_verified = 16
address rate_limited = 17
address account_disabled = 18
address account_locked = 19
address csrf_token_invalid = 20
address rehash_password_changed = 21
address already_verified = 22
address totp_invalid = 23
address totp_not_enrolled = 24
address totp_already_enrolled = 25
address totp_not_verified = 26
address totp_replayed = 27
address totp_rate_limited = 28
address code_not_found = 29
address code_invalid = 30
address code_rate_limited = 31
address passkey_not_found = 32
address challenge_failed = 33
address challenge_expired = 34
address clone_warning = 35
address invalid_user = 36
address ceremony_body_too_large = 37
address last_credential = 38
address user_handle_mismatch = 39
address challenge_not_found = 40

pub data Error : Type 0 where
  sentinel : Sentinel → Error
  foreign : ℕ → Error
  wrapped : Text → Error → Error
  -- errors.New, or fmt.Errorf without %w
  plain : Text → Error
  -- fmt.Errorf("%w: %w", …)
  joined : Error → Error → Error
  -- no error: the call panicked
  panicked : Error

-- errors.Is
abbrev pub errors_is : Error → Sentinel → Bool
errors_is (sentinel e) s = address e == address s
errors_is (foreign n) s = false
errors_is (plain text) s = false
errors_is panicked s = false
errors_is (wrapped message e) s = errors_is e s
errors_is (joined e e') s = errors_is e s || errors_is e' s

pub data Result {ℓ} (A : Type ℓ) : Type ℓ where
  ok : A → Result A
  err : Error → Result A

-- To split on the result of a call and keep the equation.
pub Result-cases {ℓ} :
    {A : Type ℓ} (r : Result A) → ((a : A) × (r ≡ ok a)) ⊎ ((e : Error) × (r ≡ err e))
Result-cases (ok a) = inl (a, refl)
Result-cases (err e) = inr (e, refl)
