-- ===== src/Service/Users/Contention.antt =====
-- updateUserWithRetry of sulis.go while other requests write to the same store: a write of another
-- request falls between an attempt's read and its own write.
use native.Mathlib.Decide.{ℕ_discrete}
use sulis.Base.{
  ℕ, zero, suc, ◌+◌, ◌≤◌, ◌≡◌, ◌≢◌, refl, true, sym, ap, subst, ◌∙◌, ◌⊎◌, inl, inr, some, List, [],
  ◌∷◌, arith,
}
use sulis.Base.Lists.{length, All}
use sulis.Base.Map.{Map, lookup, lookup-insert, lookup-delete}
use sulis.Error.{Error, Result, ok, err, sentinel, errors_is, concurrent_update, Result-cases}
use sulis.Exec.{Exec}
use sulis.Model.{User}
use sulis.Service.{Sulis, UserStore}
use sulis.Service.Users.{attempts, update_user_with_retry, max_user_update_retries}
use sulis.Memstore.Users
use sulis.Memstore.Users.{create_user, update_user, delete_user, email_taken}
use sulis.Memstore.Users.Validity.{Write, run, creates, updates, deletes, IsValid, run-IsValid}
use sulis.Memstore.Users.Versions.{
  update_user-ok_iff, lookup-update_user, update_user_stale, update_user_refused,
}

-- the store, and the writes of other requests that are to come, one after each read
pub record Contended : Type 0 where
  pub users : Map User
  pub others : List Write

unfoldable pub interfere : Contended → Contended
interfere w = elim w.others [
  | [] ↦ w
  | write ∷ rest ↦ record { users = (run write w.users).1; others = rest }
]

-- the store after so many of these writes
unfoldable pub after_writes : ℕ → List Write → Map User → Map User
after_writes zero others users = users
after_writes (suc n) [] users = users
after_writes (suc n) (write ∷ rest) users = after_writes n rest (run write users).1

abbrev pub on_users : {A : Type 0} → Exec (Map User) A → Exec Contended A
on_users m w = let (r, users) = m w.users in (r, record w { users = users })

abbrev pub contended_users : UserStore Contended
contended_users = record {
  create_user = λ u. on_users (Users.create_user u);
  get_user_by_id =
      λ id w. let (r, read) = on_users (Users.get_user_by_id id) w in (r, interfere read);
  get_user_by_email = λ email. on_users (Users.get_user_by_email email);
  update_user = λ u. on_users (Users.update_user u);
  delete_user = λ id. on_users (Users.delete_user id);
}

abbrev pub contended : Sulis Contended → Sulis Contended
contended s = record s { users = contended_users }

-- the other request does not delete the user
abbrev pub Spares : ℕ → Write → Type 0
Spares id (creates u) = Unit
Spares id (updates u) = Unit
Spares id (deletes j) = j ≢ id

-- A write leaves a row as it was, or with another version.
update_user-versions :
    (v : User) (users : Map User) (id : ℕ) (u : User)
    → IsValid users
    → lookup id users ≡ some u
    → (u' : User) × (lookup id (update_user v users).1 ≡ some u')
      × ((u' ≡ u) ⊎ (u'.version ≢ u.version))
update_user-versions v users id u valid at = elim (Result-cases (update_user v users).0) [
  | inl (_, accepted) ↦ elim (ℕ_discrete v.id id) [
    | yes same ↦
        let ((old, there, read), owns) = (update_user-ok_iff v users valid).0 accepted in
        (
          record v { version = v.version + 1 },
          ground (arith, lookup-update_user v users id accepted, same),
          inr (ground (arith, there, read, same, at)),
        )
    | no other ↦ (u, ground (arith, lookup-update_user v users id accepted, other, at), inl refl)
  ]
  | inr (e, refused) ↦ (u, ground (arith, update_user_refused v users e refused, at), inl refl)
]

run-versions :
    (write : Write) (users : Map User) (id : ℕ) (u : User)
    → IsValid users
    → Spares id write
    → lookup id users ≡ some u
    → (u' : User) × (lookup id (run write users).1 ≡ some u')
      × ((u' ≡ u) ⊎ (u'.version ≢ u.version))
unfolding run create_user delete_user
run-versions (creates v) users id u valid spares at =
    (u, ground (arith, lookup-insert v.id id v users, at), inl refl)
run-versions (updates v) users id u valid spares at = update_user-versions v users id u valid at
run-versions (deletes j) users id u valid spares at =
    (u, ground (arith, lookup-delete j id users), inl refl)

-- An attempt that meets ErrConcurrentUpdate is made again.
attempts-again :
    {W A : Type 0} (s : Sulis W) (k id : ℕ) (mutate : User → Exec W (User × A)) (w w1 w2 w3 : W)
    (row : User) (changed : User × A) (e : Error)
    → s.users.get_user_by_id id w ≡ (ok row, w1)
    → mutate row w1 ≡ (ok changed, w2)
    → s.users.update_user changed.0 w2 ≡ (err e, w3)
    → errors_is e concurrent_update ≡ true
    → attempts s (suc k) id mutate w ≡ attempts s k id mutate w3
unfolding attempts
attempts-again s k id mutate w w1 w2 w3 row changed e reads mutates writes again =
    rw (reads, mutates, writes, again) refl

module _ (id : ℕ) {A : Type 0} (g : User → User) (a : User → A) where
  abbrev pub mutation : User → Exec Contended (User × A)
  mutation u w = (ok (g u, a u), w)

  -- it changes neither the id nor the version nor the address
  abbrev pub KeepsIdentity : Type 0
  KeepsIdentity =
      (u : User) → ((g u).id ≡ u.id) × ((g u).version ≡ u.version) × ((g u).email ≡ u.email)

  -- the user was read as this row, changed, and written
  abbrev pub HasLanded : User → Result (User × A) × Contended → Type 0
  HasLanded row (r, after) =
      (r ≡ ok (g row, a row))
      × (lookup id after.users ≡ some (record (g row) { version = row.version + 1 }))

  -- the row is what the store held for the user after some of the other writes
  abbrev pub WasStored : User → Map User → List Write → Type 0
  WasStored row users others =
      (n : ℕ) × (n ≤ length others) × (lookup id (after_writes n others users) ≡ some row)

  update-lands :
      (users : Map User) (u : User)
      → KeepsIdentity
      → IsValid users
      → lookup id users ≡ some u
      → (update_user (g u) users).0 ≡ ok tt
  update-lands users u keeps valid at =
      let (same_id, same_version, same_email) = keeps u in
      (update_user-ok_iff (g u) users valid).1 (
        (u, ground (arith, at, keeps u, valid.keyed id u at), ground (arith, keeps u)),
        λ j v there e.
            valid.unique j id v u there at (e ∙ same_email)
            ∙ (sym (valid.keyed id u at) ∙ sym same_id),
      )

  update-written :
      (users : Map User) (u : User)
      → KeepsIdentity
      → IsValid users
      → lookup id users ≡ some u
      → lookup id (update_user (g u) users).1 ≡ some (record (g u) { version = u.version + 1 })
  update-written users u keeps valid at = ground (
    arith,
    lookup-update_user (g u) users id (update-lands users u keeps valid at),
    keeps u,
    valid.keyed id u at,
  )

  module _ (s : Sulis Contended) where
    -- An attempt whose write meets the row that it read lands.
    undisturbed-lands :
        (k : ℕ) (w : Contended) (users : Map User) (u : User)
        → KeepsIdentity
        → IsValid users
        → lookup id w.users ≡ some u
        → (interfere w).users ≡ users
        → lookup id users ≡ some u
        → HasLanded u (attempts (contended s) k id mutation w)
    unfolding attempts Users.get_user_by_id
    undisturbed-lands zero w users u keeps valid at after still = ground (
      arith,
      at,
      after,
      update-lands users u keeps valid still,
      update-written users u keeps valid still,
    )
    undisturbed-lands (suc k) w users u keeps valid at after still = ground (
      arith,
      at,
      after,
      update-lands users u keeps valid still,
      update-written users u keeps valid still,
    )

    -- An attempt whose write meets a newer row is made again.
    disturbed-again :
        (k : ℕ) (users : Map User) (write : Write) (rest : List Write) (u newer : User)
        → KeepsIdentity
        → u.id ≡ id
        → lookup id users ≡ some u
        → lookup id (run write users).1 ≡ some newer
        → newer.version ≢ u.version
        → attempts
            (contended s)
            (suc k)
            id
            mutation
            (record { users = users; others = write ∷ rest })
          ≡ attempts
              (contended s)
              k
              id
              mutation
              (record { users = (run write users).1; others = rest })
    unfolding attempts Users.get_user_by_id interfere
    disturbed-again k users write rest u newer keeps same_id at after differs =
        let met = (run write users).1 in
        let stale =
          update_user_stale (g u) met newer (ap (λ i. lookup i met) ((keeps u).0 ∙ same_id) ∙ after)
            (ground (arith, keeps u)) in
        let left : Contended = record { users = met; others = rest } in
        attempts-again (contended s) k id mutation (record { users = users; others = write ∷ rest })
          left left left u (g u, a u) (sentinel concurrent_update) (ground (arith, at)) refl
          (ground (arith, stale)) refl

    attempts-land :
        (k : ℕ) (users : Map User) (others : List Write) (u : User)
        → KeepsIdentity
        → IsValid users
        → All (Spares id) others
        → length others ≤ k
        → lookup id users ≡ some u
        → (row : User) × WasStored row users others
          × HasLanded row
              (attempts (contended s) k id mutation (record { users = users; others = others }))
    unfolding interfere after_writes
    attempts-land k users [] u keeps valid spares few at =
        (u, (0, omega arith, at), undisturbed-lands k _ users u keeps valid at refl at)
    attempts-land zero users (write ∷ rest) u keeps valid spares few at = absurd (omega arith)
    attempts-land (suc k) users (write ∷ rest) u keeps valid (spared, spares) few at =
        let (u', there, which) = run-versions write users id u valid spared at in
        let after = (run write users).1 in
        let still_valid = run-IsValid write users valid in
        elim which [
          | inl same ↦ (
            u,
            (0, omega arith, at),
            undisturbed-lands (suc k) _ after u keeps still_valid at refl (there ∙ ap some same),
          )
          | inr newer ↦
              let (row, (n, within, stored), landed) =
                attempts-land k after rest u' keeps still_valid spares (omega arith) there in
              (
                row,
                (suc n, omega arith, stored),
                subst (HasLanded row)
                    (sym (
                      disturbed-again k users write rest u u' keeps (valid.keyed id u at) at there
                        newer))
                    landed,
              )
        ]

    -- Over a well-formed in-memory user store, a mutation that accepts every row, and changes neither the
    -- id nor the version nor the address, lands on a stored user, though after each of up to two reads
    -- another request writes anything but the deletion of the user: it is given a row that the store held
    -- for the user before, between or after those writes, and what it makes of this row is returned, and
    -- is what the store holds at the end, with the next version.
    pub update_user_with_retry-lands :
        (users : Map User) (others : List Write) (u : User)
        → KeepsIdentity
        → IsValid users
        → All (Spares id) others
        → length others ≤ 2
        → lookup id users ≡ some u
        → (row : User) × WasStored row users others
          × HasLanded row (
              update_user_with_retry
                (contended s)
                id
                mutation
                (record { users = users; others = others }))
    unfolding update_user_with_retry
    update_user_with_retry-lands users others u keeps valid spares few at =
        attempts-land max_user_update_retries users others u keeps valid spares few at
