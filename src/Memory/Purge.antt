-- ===== src/Memory/Purge.antt =====
-- What setting a password leaves behind in the in-memory stores: setPassword and ResetPassword of
-- sulis.go.
use sulis.Base.{ℕ, ◌+◌, ◌≡◌, ◌≢◌, Bool, true, false, some, if◌then◌else◌}
use sulis.Base.Text.{Text}
use sulis.Base.Map.{Map, lookup, remove_if}
use sulis.Error.{Result, ok}
use sulis.Model.{User, Session, Token, TokenPurpose}
use sulis.Service.{Config}
use sulis.Service.Sessions.{revoke_user_sessions}
use sulis.Service.Password.{set_password, with_password, no_guard}
use sulis.Memstore.Tokens.{issued_to}
use sulis.Memory.{World, Outside, in_memory}
use sulis.Memory.Writes.{IsQuiet, next_version}

-- the purposes whose tokens a new password ends
abbrev pub is_login_purpose : TokenPurpose → Bool
is_login_purpose TokenPurpose.password_reset = true
is_login_purpose TokenPurpose.magic_link = true
is_login_purpose TokenPurpose.two_factor = true
is_login_purpose TokenPurpose.email_verification = false
is_login_purpose TokenPurpose.email_change = false

-- Nothing that could log the user in is left.
pub record IsPurged (cfg : Config World) (user_id : ℕ) (v : World) : Type 0 where
  pub sessions :
      cfg.revoke_sessions_on_password_change ≡ true
      → (j : ℕ) (x : Session) → lookup j v.sessions ≡ some x
      → x.user_id ≢ user_id
  pub tokens :
      (j : ℕ) (t : Token)
      → lookup j v.tokens ≡ some t
      → is_login_purpose t.purpose ≡ true
      → t.user_id ≢ user_id

purge_tokens : ℕ → Map Token → Map Token
purge_tokens user_id tokens = remove_if (issued_to user_id TokenPurpose.magic_link) (
    remove_if (issued_to user_id TokenPurpose.two_factor)
      (remove_if (issued_to user_id TokenPurpose.password_reset) tokens))

module _ (o : Outside) (cfg : Config World) (quiet : IsQuiet cfg) where
  revoked : ℕ → World → World
  revoked user_id w = (revoke_user_sessions (in_memory o cfg) user_id w).1

  -- the world after the sessions went, if they did
  abbrev first_step : ℕ → World → World
  first_step user_id w = if cfg.revoke_sessions_on_password_change then revoked user_id w else w

  abbrev pub resets : ℕ → Text → World → Result (Unit {0}) × World
  resets user_id new_password w =
      set_password (in_memory o cfg) user_id new_password (no_guard (in_memory o cfg)) w

  -- the outcome of `resets`
  abbrev pub IsReset : ℕ → Text → World → User → Type 0
  IsReset user_id new_password w u =
      ((resets user_id new_password w).0 ≡ ok tt)
      × (lookup user_id (resets user_id new_password w).1.users
          ≡ some (
              next_version o cfg
                (with_password (o.hash_password w.asked new_password) (o.clock (w.asked + 1)) u)))
      × IsPurged cfg user_id (resets user_id new_password w).1
