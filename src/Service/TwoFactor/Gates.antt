-- ===== src/Service/TwoFactor/Gates.antt =====
-- What CompleteTwoFactor of twofactor.go has checked, and ConsumeToken's caller in sulis.go.
use sulis.Base.{ℕ, ◌≤◌, ◌≡◌, inl, inr, true, arith, is_some}
use sulis.Base.Text.{Text}
use sulis.Error.{ok, Result-cases}
use sulis.Model.{Token, TokenPurpose, LoginResult, RequestInfo}
use sulis.Service.{Sulis}
use sulis.Service.Guards.{account_status, require_verified_email}
use sulis.Service.Guards.Gates.{IsVerified, IsActive}
use sulis.Service.Tokens.{consume_token}
use sulis.Service.TwoFactor.{complete_two_factor}

module _ {W : Type 0} (s : Sulis W) where
  -- consumeToken returns what the store consumed under the raw token's hash, if it has not expired.
  pub consume_token_sound :
      (raw_token : Text) (purpose : TokenPurpose) (w v : W) (token : Token)
      → consume_token s raw_token purpose w ≡ (ok token, v)
      → (w1 : W) × (s.tokens.consume_token (s.platform.sha256_hex raw_token) purpose w
          ≡ (ok token, w1))
        × ((s.platform.now w1).0 ≤ token.expires_at)
        × (v ≡ (s.platform.now w1).1)
  unfolding consume_token
  consume_token_sound raw_token purpose w v token h = (
    (s.tokens.consume_token (s.platform.sha256_hex raw_token) purpose w).1,
    ground arith,
    ground arith,
    ground arith,
  )

  -- CompleteTwoFactor returns a result only if the store consumed a pending login of this very user under
  -- the hash of the raw token, which had not expired when the clock was read next, and the user is then
  -- found active, with a verified address where that is required. The result holds a session.
  pub complete_two_factor_sound :
      (user_id : ℕ) (raw_token : Text) (ri : RequestInfo) (w v : W) (r : LoginResult)
      → complete_two_factor s user_id raw_token ri w ≡ (ok r, v)
      → (token : Token) × (w1 : W) × (w2 : W) × (s.tokens.consume_token
            (s.platform.sha256_hex raw_token)
            TokenPurpose.two_factor
            w
          ≡ (ok token, w1))
        × ((s.platform.now w1).0 ≤ token.expires_at)
        × (token.user_id ≡ user_id)
        × (s.users.get_user_by_id user_id (s.platform.now w1).1 ≡ (ok r.user, w2))
        × IsActive r.user (s.platform.now w2).0
        × IsVerified s r.user
        × (is_some r.session ≡ true)
  unfolding complete_two_factor account_status require_verified_email
  complete_two_factor_sound user_id raw_token ri w v r h =
      elim (Result-cases (consume_token s raw_token TokenPurpose.two_factor w).0) [
        | inr (e, refused) ↦ absurd (ground arith)
        | inl (token, consumed) ↦
            let w' = (consume_token s raw_token TokenPurpose.two_factor w).1 in
            let (w1, taken, in_time, after) =
              consume_token_sound raw_token TokenPurpose.two_factor w w' token (ground arith) in
            (
              token,
              w1,
              (s.users.get_user_by_id user_id (s.platform.now w1).1).1,
              taken,
              in_time,
              ground arith,
              ground arith,
              record { enabled = ground arith; unlocked = λ until e. ground arith },
              ground arith,
              ground arith,
            )
      ]
