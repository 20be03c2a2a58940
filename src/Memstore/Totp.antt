-- ===== src/Memstore/Totp.antt =====
-- memstore/totp.go: for each user at most one active credential and at most one pending enrollment.
pub mod Slots
use sulis.Base.{
  ℕ, ◌≡◌, Bool, true, false, ◌||◌, not, Option, none, some, ltb, leb, ◌==◌, if◌then◌else◌, is_some,
}
use sulis.Base.Map.{Map, lookup, insert, delete}
use sulis.Error.{ok, err, totp_not_enrolled, totp_already_enrolled, totp_replayed}
use sulis.Exec.{Exec, pure, fail}
use sulis.Totp.{Credential}

pub record TotpSlots : Type 0 where
  pub active : Map Credential
  pub pending : Map Credential

unfoldable pub get_active_totp : ℕ → Exec TotpSlots Credential
get_active_totp user_id slots = elim (lookup user_id slots.active) [
  | none ↦ fail totp_not_enrolled slots
  | some cred ↦ pure cred slots
]

unfoldable pub get_pending_totp : ℕ → Exec TotpSlots Credential
get_pending_totp user_id slots = elim (lookup user_id slots.pending) [
  | none ↦ fail totp_not_enrolled slots
  | some cred ↦ pure cred slots
]

unfoldable pub set_pending : Credential → TotpSlots → TotpSlots
set_pending cred slots = record slots {
  pending = insert cred.user_id (record cred { verified = false }) slots.pending;
}

unfoldable pub enroll_pending : Credential → Exec TotpSlots Unit
unfolding set_pending
enroll_pending cred slots =
    if is_some (lookup cred.user_id slots.active)
    then fail totp_already_enrolled slots
    else pure tt (set_pending cred slots)

unfoldable pub replace_pending : Credential → Exec TotpSlots Unit
unfolding set_pending
replace_pending cred slots = pure tt (set_pending cred slots)

-- the higher of the matched counter and the active credential's
unfoldable pub promoted_counter : Option Credential → ℕ → ℕ
promoted_counter none counter = counter
promoted_counter (some active) counter =
    if ltb counter active.last_used_counter then active.last_used_counter else counter

-- the credential that a pending enrollment becomes
abbrev pub promote : ℕ → Credential → ℕ → Credential
promote user_id pending counter = record {
  id = pending.id;
  user_id = user_id;
  secret = pending.secret;
  verified = true;
  last_used_counter = counter;
  created_at = pending.created_at;
}

unfoldable pub confirm_enrollment : ℕ → ℕ → ℕ → Exec TotpSlots Credential
confirm_enrollment user_id pending_id counter slots = elim (lookup user_id slots.pending) [
  | none ↦ fail totp_not_enrolled slots
  | some pending ↦
      if not (pending.id == pending_id)
      then fail totp_not_enrolled slots
      else let promoted =
          promote user_id pending (promoted_counter (lookup user_id slots.active) counter) in
        pure promoted (record {
          active = insert user_id promoted slots.active;
          pending = delete user_id slots.pending;
        })
]

unfoldable pub save_totp : Credential → Exec TotpSlots Unit
save_totp cred slots = elim (lookup cred.user_id slots.active) [
  | none ↦ fail totp_not_enrolled slots
  | some existing ↦
      if not (existing.id == cred.id)
      then fail totp_not_enrolled slots
      else if leb cred.last_used_counter existing.last_used_counter
      then fail totp_replayed slots
      else pure tt (record slots {
        active =
            insert cred.user_id (record existing { last_used_counter = cred.last_used_counter })
              slots.active;
      })
]

unfoldable pub delete_totp : ℕ → Exec TotpSlots Unit
delete_totp user_id slots =
    pure tt
      (record { active = delete user_id slots.active; pending = delete user_id slots.pending })
