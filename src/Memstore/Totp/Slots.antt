-- ===== src/Memstore/Totp/Slots.antt =====
-- The replay clock of memstore/totp.go: the counter of a user's active credential.
use sulis.Base.{ℕ, ◌≤◌, ◌<◌, ◌↔◌, ◌≢◌, ◌≡◌, some, List, [], ◌∷◌, arith, Option-cases, inl, inr}
use sulis.Base.Map.{lookup, lookup-insert}
use sulis.Error.{ok}
use sulis.Totp.{Credential}
use sulis.Memstore.Totp.{
  TotpSlots, promote, enroll_pending, replace_pending, promoted_counter, confirm_enrollment,
  save_totp,
}

-- the writes other than the removal of the factor
pub data Step : Type 0 where
  enrolls replaces saves : Credential → Step
  confirms : ℕ → ℕ → ℕ → Step

pub step : Step → TotpSlots → TotpSlots
step (enrolls cred) slots = (enroll_pending cred slots).1
step (replaces cred) slots = (replace_pending cred slots).1
step (saves cred) slots = (save_totp cred slots).1
step (confirms user_id pending_id counter) slots =
    (confirm_enrollment user_id pending_id counter slots).1

pub steps : List Step → TotpSlots → TotpSlots
steps [] slots = slots
steps (x ∷ xs) slots = steps xs (step x slots)

-- the user has an active credential whose counter is at least `n`
pub record IsPast (n user_id : ℕ) (slots : TotpSlots) : Type 0 where
  pub cred : Credential
  pub found : lookup user_id slots.active ≡ some cred
  pub late : n ≤ cred.last_used_counter

module _ (n user_id : ℕ) (slots : TotpSlots) (p : IsPast n user_id slots) where
  enroll_pending-IsPast : (cred : Credential) → IsPast n user_id (enroll_pending cred slots).1
  unfolding enroll_pending
  enroll_pending-IsPast cred = record { cred = p.cred; found = ground arith; late = p.late }

  replace_pending-IsPast : (cred : Credential) → IsPast n user_id (replace_pending cred slots).1
  unfolding replace_pending
  replace_pending-IsPast cred = record { cred = p.cred; found = p.found; late = p.late }

  save_totp-IsPast : (cred : Credential) → IsPast n user_id (save_totp cred slots).1
  unfolding save_totp
  save_totp-IsPast cred =
      let kept = λ (c : Credential). lookup-insert cred.user_id user_id c slots.active in
      elim (Option-cases (lookup cred.user_id slots.active)) [
        | inl none_there ↦ record {
          cred = p.cred;
          found = ground (arith, none_there);
          late = p.late;
        }
        | inr (old, there) ↦ elim (Option-cases (lookup user_id (save_totp cred slots).1.active)) [
          | inl gone ↦ absurd (
              ground
                (arith, there, kept (record old { last_used_counter = cred.last_used_counter })))
          | inr (c, e) ↦ record {
            cred = c;
            found = e;
            late =
                ground
                  (arith, there, kept (record old { last_used_counter = cred.last_used_counter }));
          }
        ]
      ]

  confirm_enrollment-IsPast :
      (user pending_id counter : ℕ)
      → IsPast n user_id (confirm_enrollment user pending_id counter slots).1
  unfolding confirm_enrollment promoted_counter
  confirm_enrollment-IsPast user pending_id counter =
      let found = λ (pending : Credential).
        lookup-insert user user_id
          (promote user pending (promoted_counter (lookup user slots.active) counter))
          slots.active in
      elim (Option-cases (lookup user slots.pending)) [
        | inl none_there ↦ record {
          cred = p.cred;
          found = ground (arith, none_there);
          late = p.late;
        }
        | inr (pending, there) ↦
            elim (Option-cases
              (lookup user_id (confirm_enrollment user pending_id counter slots).1.active)) [
                | inl gone ↦ absurd (ground (arith, there, found pending))
                | inr (c, e) ↦ record {
                  cred = c;
                  found = e;
                  late = ground (arith, there, found pending);
                }
              ]
      ]

step-IsPast :
    (n user_id : ℕ) (x : Step) (slots : TotpSlots)
    → IsPast n user_id slots
    → IsPast n user_id (step x slots)
unfolding step
step-IsPast n user_id (enrolls cred) slots p = enroll_pending-IsPast n user_id slots p cred
step-IsPast n user_id (replaces cred) slots p = replace_pending-IsPast n user_id slots p cred
step-IsPast n user_id (saves cred) slots p = save_totp-IsPast n user_id slots p cred
step-IsPast n user_id (confirms user pending_id counter) slots p =
    confirm_enrollment-IsPast n user_id slots p user pending_id counter

-- Whatever enrollments, replacements, confirmations and saves follow, in whatever order, a user who has
-- an active credential keeps one, and its counter never goes back.
steps-IsPast :
    (n user_id : ℕ) (xs : List Step) (slots : TotpSlots)
    → IsPast n user_id slots
    → IsPast n user_id (steps xs slots)
unfolding steps
steps-IsPast n user_id [] slots p = p
steps-IsPast n user_id (x ∷ xs) slots p =
    steps-IsPast n user_id xs (step x slots) (step-IsPast n user_id x slots p)

-- SaveTOTP succeeds exactly if the credential is still the active one and its counter is higher.
save_totp-ok_iff :
    (cred : Credential) (slots : TotpSlots)
    → ((save_totp cred slots).0 ≡ ok tt) ↔ (
        (old : Credential) × (lookup cred.user_id slots.active ≡ some old)
        × (old.id ≡ cred.id)
        × (old.last_used_counter < cred.last_used_counter))
unfolding save_totp
save_totp-ok_iff cred slots = elim (Option-cases (lookup cred.user_id slots.active)) [
  | inl absent ↦ (λ h. ground (arith, absent), λ h. ground (arith, absent))
  | inr (old, there) ↦
      (λ h. (old, there, ground (arith, there), ground (arith, there)), λ h. ground (arith, there))
]

save_totp-eq-ok :
    (cred : Credential) (slots : TotpSlots)
    → (save_totp cred slots).0 ≡ ok tt
    → IsPast cred.last_used_counter cred.user_id (save_totp cred slots).1
unfolding save_totp
save_totp-eq-ok cred slots h = elim (Option-cases (lookup cred.user_id slots.active)) [
  | inl absent ↦ absurd (ground (arith, absent))
  | inr (old, there) ↦
      let saved = record old { last_used_counter = cred.last_used_counter } in
      record {
        cred = saved;
        found = ground (arith, there, lookup-insert cred.user_id cred.user_id saved slots.active);
        late = omega arith;
      }
]

-- A time step that SaveTOTP accepted for a user is accepted once: whatever enrollments, replacements,
-- confirmations and saves come between, no later save of that step or an earlier one succeeds for the
-- user.
pub time_step_once :
    (cred again : Credential) (xs : List Step) (slots : TotpSlots)
    → (save_totp cred slots).0 ≡ ok tt
    → again.user_id ≡ cred.user_id
    → again.last_used_counter ≤ cred.last_used_counter
    → (save_totp again (steps xs (save_totp cred slots).1)).0 ≢ ok tt
time_step_once cred again xs slots saved same earlier accepted =
    let after = steps xs (save_totp cred slots).1 in
    let past =
      steps-IsPast cred.last_used_counter cred.user_id xs (save_totp cred slots).1
        (save_totp-eq-ok cred slots saved) in
    let (old, there, _, newer) = (save_totp-ok_iff again after).0 accepted in
    ground (arith, past.found, past.late, there, newer)
