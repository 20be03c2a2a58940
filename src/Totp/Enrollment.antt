-- ===== src/Totp/Enrollment.antt =====
-- Enroll, ReplaceEnrollment, ConfirmEnrollment, Validate and Unenroll of totp/totp.go. The otpauth URI
-- that an enrollment also returns is only text for the user, and is left out.
use sulis.Base.{ℕ, Bool, true, false, none, some, leb, if◌then◌else◌, [], ◌∷◌, ◌++◌}
use sulis.Base.Text.{Text, codes}
use sulis.Error.{
  ok, err, totp_invalid, totp_not_enrolled, totp_not_verified, totp_replayed, totp_rate_limited,
}
use sulis.Exec.{Exec, pure, fail, lift, attempt, total, ◌>>=◌, ◌>>◌}
use sulis.Service.Tokens.{wrapping}
use sulis.Totp.{Credential, TotpService}
use sulis.Totp.Code.{match_code}

module _ {W : Type 0} (s : TotpService W) where
  -- the key stands for "totp:" and the user's id
  unfoldable pub allow : ℕ → Exec W Unit
  allow user_id = elim s.cfg.limiter [
    | none ↦ pure tt
    | some limiter ↦ do
      answer ← attempt (limiter.allow (codes "totp:" ++ (user_id ∷ [])))
      elim answer [ ok _ ↦ pure tt | err _ ↦ fail totp_rate_limited ]
  ]

  unfoldable pub encrypt_secret : Text → Exec W Text
  encrypt_secret secret = elim s.cfg.encryptor [
    | none ↦ pure secret
    | some encryptor ↦ wrapping (codes "totp: encrypting secret") (encryptor.encrypt secret)
  ]

  unfoldable pub decrypt_secret : Text → Exec W Text
  decrypt_secret stored = elim s.cfg.encryptor [
    | none ↦ pure stored
    | some encryptor ↦ wrapping (codes "totp: decrypting secret") (lift (encryptor.decrypt stored))
  ]

  unfoldable pub enroll_with : ℕ → Bool → Exec W Text
  unfolding encrypt_secret
  enroll_with user_id force_replace = do
    secret ← wrapping (codes "totp: generating secret") s.random_secret
    stored ← encrypt_secret secret
    id ← total s.new_id
    t ← total s.now
    let cred =
        let c : Credential = record {
          id = id;
          user_id = user_id;
          secret = stored;
          verified = false;
          last_used_counter = 0;
          created_at = t;
        } in
        c
    if force_replace then s.store.replace_pending cred else s.store.enroll_pending cred
    pure secret

  unfoldable pub enroll : ℕ → Exec W Text
  unfolding enroll_with
  enroll user_id = enroll_with user_id false

  unfoldable pub replace_enrollment : ℕ → Exec W Text
  unfolding enroll_with
  replace_enrollment user_id = enroll_with user_id true

  unfoldable pub confirm_enrollment : ℕ → Text → Exec W Unit
  confirm_enrollment user_id code = do
    allow user_id
    found ← attempt (s.store.get_pending_totp user_id)
    elim found [
      | err _ ↦ fail totp_not_enrolled
      | ok pending ↦ do
        secret ← decrypt_secret pending.secret
        t ← total s.now
        elim (match_code s secret code t) [
          | none ↦ fail totp_invalid
          | some counter ↦ do
            confirmed ← attempt (s.store.confirm_enrollment user_id pending.id counter)
            elim confirmed [ ok _ ↦ pure tt | err _ ↦ fail totp_not_enrolled ]
        ]
    ]

  -- what follows the match of a code against the active credential
  unfoldable pub accept : Credential → ℕ → Exec W Unit
  accept cred counter =
      if leb counter cred.last_used_counter
      then fail totp_replayed
      else s.store.save_totp (record cred { last_used_counter = counter })

  -- the check of a code against the active credential
  unfoldable pub validate_against : Credential → Text → Exec W Unit
  validate_against cred code = do
    secret ← decrypt_secret cred.secret
    t ← total s.now
    elim (match_code s secret code t) [
      | none ↦ fail totp_invalid
      | some counter ↦ accept cred counter
    ]

  unfoldable pub validate : ℕ → Text → Exec W Unit
  validate user_id code = do
    allow user_id
    found ← attempt (s.store.get_active_totp user_id)
    elim found [
      | err _ ↦ do
        waiting ← attempt (s.store.get_pending_totp user_id)
        elim waiting [ ok _ ↦ fail totp_not_verified | err _ ↦ fail totp_not_enrolled ]
      | ok cred ↦ validate_against cred code
    ]

  unfoldable pub unenroll : ℕ → Exec W Unit
  unenroll user_id = s.store.delete_totp user_id
