-- ===== src/Totp/Replay.antt =====
-- What Validate of totp/totp.go has checked when it accepts a code.
use sulis.Base.{
  ℕ, zero, suc, ◌≤◌, ◌<◌, ◌+◌, ◌*◌, ◌≡◌, Bool, true, false, none, some, arith, Option-cases,
  Bool-cases, inl, inr,
}
use sulis.Base.Text.{Text, text_eq, text_eq_iff}
use sulis.Error.{ok, err, sentinel, Result-cases, totp_replayed}
use sulis.Exec.{>>=-eq-ok}
use sulis.Totp.{Credential, TotpService}
use sulis.Totp.Code.{counter_at, generate_code, shifted, match_from, match_code}
use sulis.Totp.Enrollment.{allow, decrypt_secret, accept, validate_against, validate}

module _ {W : Type 0} (s : TotpService W) where
  -- the code is that of the time step `counter`, which a time at most Skew periods from `t` is in
  pub record IsInWindow (secret code : Text) (t counter : ℕ) : Type 0 where
    pub window : ℕ
    pub near : window ≤ 2 * s.cfg.skew
    pub dated : counter_at (shifted s t window) s.cfg.period ≡ some counter
    pub equal : generate_code s secret (shifted s t window) ≡ some code

  -- the j-th window has the code
  is_hit : Text → Text → ℕ → ℕ → Bool
  is_hit secret code t j = elim (generate_code s secret (shifted s t j)) [
    | none ↦ false
    | some expected ↦ text_eq code expected
  ]

  hit-eq :
      (secret code : Text) (t j : ℕ)
      → is_hit secret code t j ≡ true
      → generate_code s secret (shifted s t j) ≡ some code
  unfolding is_hit
  hit-eq secret code t j h = elim (Option-cases (generate_code s secret (shifted s t j))) [
    | inl failed ↦ absurd (ground (arith, failed))
    | inr (expected, made) ↦ ground (arith, made, text_eq_iff code expected)
  ]

  match_from-IsInWindow :
      (secret code : Text) (t n j counter : ℕ)
      → n + j ≤ suc (2 * s.cfg.skew)
      → match_from s secret code t n j ≡ some counter
      → IsInWindow secret code t counter
  unfolding match_from is_hit
  match_from-IsInWindow secret code t zero j counter room h = absurd (ground arith)
  match_from-IsInWindow secret code t (suc n) j counter room h =
      elim (Bool-cases (is_hit secret code t j)) [
        | inr miss ↦
            match_from-IsInWindow secret code t n (suc j) counter (omega arith) (ground arith)
        | inl hit ↦ record {
          window = j;
          near = omega arith;
          dated = ground arith;
          equal = hit-eq secret code t j hit;
        }
      ]

  match_code-IsInWindow :
      (secret code : Text) (t counter : ℕ)
      → match_code s secret code t ≡ some counter
      → IsInWindow secret code t counter
  unfolding match_code
  match_code-IsInWindow secret code t counter h =
      match_from-IsInWindow secret code t (suc (2 * s.cfg.skew)) 0 counter (omega arith) h

  -- What a code that was accepted against `cred` has been checked for.
  pub record Accepted (cred : Credential) (code : Text) (w v : W) : Type 0 where
    pub secret : Text
    pub counter : ℕ
    pub read : W
    pub decrypts : decrypt_secret s cred.secret w ≡ (ok secret, read)
    pub matches : IsInWindow secret code (s.now read).0 counter
    pub later : cred.last_used_counter < counter
    pub saves :
        s.store.save_totp (record cred { last_used_counter = counter }) (s.now read).1 ≡ (ok tt, v)

  validate_against-Accepted :
      (cred : Credential) (code : Text) (w v : W)
      → validate_against s cred code w ≡ (ok tt, v)
      → Accepted cred code w v
  unfolding validate_against accept
  validate_against-Accepted cred code w v h =
      let (secret, read, decrypts, h1) = >>=-eq-ok (decrypt_secret s cred.secret) _ w h in
      let t = (s.now read).0 in
      elim (Option-cases (match_code s secret code t)) [
        | inl miss ↦ absurd (ground arith)
        | inr (counter, hit) ↦ record {
          secret = secret;
          counter = counter;
          read = read;
          decrypts = decrypts;
          matches = match_code-IsInWindow secret code t counter hit;
          later = ground arith;
          saves = ground arith;
        }
      ]

  -- Validate accepts a code only for an active credential, whose secret gives that code for a time step
  -- at most Skew periods from now that is later than the last one used; and only once the store has
  -- saved that step as the last one used.
  pub validate_sound :
      (user_id : ℕ) (code : Text) (w v : W)
      → validate s user_id code w ≡ (ok tt, v)
      → (cred : Credential) × (w1 : W) × (w2 : W) × (s.store.get_active_totp user_id w1
          ≡ (ok cred, w2))
        × Accepted cred code w2 v
  unfolding validate
  validate_sound user_id code w v h =
      let (_, w1, _, h1) = >>=-eq-ok (allow s user_id) _ w h in
      let w2 = (s.store.get_active_totp user_id w1).1 in
      elim (Result-cases (s.store.get_active_totp user_id w1).0) [
        | inr (e, missing) ↦ absurd (ground arith)
        | inl (cred, found) ↦
            (cred, w1, w2, ground arith, validate_against-Accepted cred code w2 v (ground arith))
      ]

  -- A code whose time step is not later than the last one used is refused with ErrTOTPReplayed.
  replayed :
      (cred : Credential) (code secret : Text) (counter : ℕ) (w w1 : W)
      → decrypt_secret s cred.secret w ≡ (ok secret, w1)
      → match_code s secret code (s.now w1).0 ≡ some counter
      → counter ≤ cred.last_used_counter
      → (validate_against s cred code w).0 ≡ err (sentinel totp_replayed)
  unfolding validate_against accept
  replayed cred code secret counter w w1 decrypts hit used = ground arith
