-- ===== src/Memstore/Users/Versions.antt =====
-- UpdateUser of memstore/user.go as a compare-and-swap on the row's version.
use sulis.Base.{
  ℕ, ◌+◌, ◌≡◌, ◌≢◌, ◌↔◌, false, some, arith, Option-cases, inl, inr, ◌==◌, if◌then◌else◌, ◌∙◌,
}
use sulis.Base.Text.{text_eq_iff}
use sulis.Base.Map.{Map, lookup, find, lookup-insert, find-some}
use sulis.Error.{Error, ok, err, concurrent_update}
use sulis.Exec.{fail}
use sulis.Model.{User}
use sulis.Memstore.Users.{update_user, email_taken, holds_email}
use sulis.Memstore.Users.Validity.{IsValid, email_free}

-- no other row has the address of `u`
abbrev pub OwnsEmail : User → Map User → Type 0
OwnsEmail u users = (j : ℕ) (v : User) → lookup j users ≡ some v → v.email ≡ u.email → j ≡ u.id

pub email_taken-eq-false :
    (u : User) (users : Map User)
    → IsValid users
    → OwnsEmail u users
    → email_taken u.email u.id users ≡ false
unfolding email_taken
email_taken-eq-false u users v owns = elim (Option-cases (find (holds_email u.email u.id) users)) [
  | inl missing ↦ rw missing
  | inr ((j, x), found) ↦ ground (
    arith,
    found,
    find-some (holds_email u.email u.id) users j x v.distinct found,
    text_eq_iff x.email u.email,
    owns j x,
  )
]

-- An update succeeds exactly when the stored row has the version that the caller read and no other
-- row has the new address.
pub update_user-ok_iff :
    (u : User) (users : Map User)
    → IsValid users
    → ((update_user u users).0 ≡ ok tt) ↔ (
        ((old : User) × (lookup u.id users ≡ some old) × (old.version ≡ u.version))
        × OwnsEmail u users)
unfolding update_user
update_user-ok_iff u users v = elim (Option-cases (lookup u.id users)) [
  | inl absent ↦ (λ h. ground (arith, absent), λ h. ground (arith, absent))
  | inr (old, present) ↦ (
    λ h. (
      (old, present, ground (arith, present)),
      λ j x at e. email_free u.email u.id users j x (ground (arith, present)) at e,
    ),
    λ h. ground (arith, present, email_taken-eq-false u users v h.1),
  )
]

-- A successful update writes the caller's row with the next version, and no other row.
pub lookup-update_user :
    (u : User) (users : Map User) (j : ℕ)
    → (update_user u users).0 ≡ ok tt
    → lookup j (update_user u users).1
      ≡ (if u.id == j then some (record u { version = u.version + 1 }) else lookup j users)
unfolding update_user
lookup-update_user u users j h = elim (Option-cases (lookup u.id users)) [
  | inl absent ↦ ground (arith, absent)
  | inr (old, present) ↦
      ground (arith, present, lookup-insert u.id j (record u { version = old.version + 1 }) users)
]

-- An update that is refused writes nothing.
pub update_user_refused :
    (u : User) (users : Map User) (e : Error)
    → (update_user u users).0 ≡ err e
    → (update_user u users).1 ≡ users
unfolding update_user
update_user_refused u users e h = ground arith

-- An update built from a version that is no longer current is refused, and writes nothing.
pub update_user_stale :
    (v : User) (users : Map User) (current : User)
    → lookup v.id users ≡ some current
    → current.version ≢ v.version
    → update_user v users ≡ fail concurrent_update users
unfolding update_user
update_user_stale v users current at newer = ground (arith, at)

-- Of two writers that read the same version of a row, the one that writes second is refused with
-- ErrConcurrentUpdate, and the row keeps what the first wrote.
second_writer_loses :
    (u v : User) (users : Map User)
    → u.id ≡ v.id
    → u.version ≡ v.version
    → (update_user u users).0 ≡ ok tt
    → update_user v (update_user u users).1 ≡ fail concurrent_update (update_user u users).1
second_writer_loses u v users same_id same_version won =
    update_user_stale v (update_user u users).1 (record u { version = u.version + 1 })
      (lookup-update_user u users v.id won ∙ ground arith) (ground arith)
