-- ===== src/Service/Guards/Gates.antt =====
-- What the shared checks of the service establish when they let a call through.
use sulis.Base.{ℕ, ◌≤◌, ◌≡◌, none, some, arith, is_some, ◌&&◌, not, false}
use sulis.Error.{ok}
use sulis.Model.{User}
use sulis.Service.{Sulis}
use sulis.Model.Event.{Event}
use sulis.Service.Guards.{emit, account_status, require_verified_email}

-- The account is neither disabled nor locked at the time `t`.
pub record IsActive (user : User) (t : ℕ) : Type 0 where
  pub enabled : user.disabled_at ≡ none
  pub unlocked : (until : ℕ) → user.locked_until ≡ some until → until ≤ t

module _ {W : Type 0} (s : Sulis W) where
  pub account_status-IsActive :
      (user : User) (w v : W)
      → account_status s user w ≡ (ok tt, v)
      → IsActive user (s.platform.now w).0
  unfolding account_status
  account_status-IsActive user w v h = record {
    enabled = ground arith;
    unlocked = λ until e. ground arith;
  }

  -- The address is verified, where RequireVerifiedEmail is on.
  abbrev pub IsVerified : User → Type 0
  IsVerified user = (s.cfg.require_verified_email && not (is_some user.email_verified_at)) ≡ false

  -- With RequireVerifiedEmail on, only a verified account passes.
  pub require_verified_email-eq-ok :
      (user : User) (w v : W) → require_verified_email s user w ≡ (ok tt, v) → IsVerified user
  unfolding require_verified_email
  require_verified_email-eq-ok user w v h = ground arith

  -- Sending an event never fails.
  pub emit-ok : (e : Event) (w : W) → (emit s e w).0 ≡ ok tt
  unfolding emit
  emit-ok e w = ground arith
