-- ===== src/Memory/Writes.antt =====
-- updateUserWithRetry over the in-memory stores, and what events leave alone.
use sulis.Base.{
  ℕ, ◌+◌, ◌≡◌, refl, some, arith, ◌==◌, sym, subst, ◌∙◌, suc, Bool-cases, Option-cases, inl, inr,
}
use sulis.Base.Map.{Map, lookup, insert, DistinctKeys}
use sulis.Error.{ok}
use sulis.Exec.{pure}
use sulis.Model.{User}
use sulis.Model.Event.{Event}
use sulis.Service.{Config, EventSink}
use sulis.Service.Guards.{emit}
use sulis.Service.Users.{attempts, update_user_with_retry}
use sulis.Memstore.Users.{get_user_by_id, update_user}
use sulis.Memstore.Users.Validity.{IsValid}
use sulis.Memstore.Users.Versions.{email_taken-eq-false}
use sulis.Memory.{World, Outside, in_memory}

pub record SameStores (a b : World) : Type 0 where
  pub users : a.users ≡ b.users
  pub sessions : a.sessions ≡ b.sessions
  pub tokens : a.tokens ≡ b.tokens

-- the sink writes to no store
pub record IsQuiet (cfg : Config World) : Type 0 where
  pub sink :
      (k : EventSink World) (e : Event) (w : World)
      → cfg.event_sink ≡ some k
      → SameStores (k.emit e w) w

pub record IsSound (w : World) : Type 0 where
  pub users : IsValid w.users
  pub sessions : DistinctKeys w.sessions
  pub tokens : DistinctKeys w.tokens

module _ (o : Outside) (cfg : Config World) where
  pub emit-SameStores :
      (e : Event) (w : World) → IsQuiet cfg → SameStores (emit (in_memory o cfg) e w).1 w
  unfolding emit
  emit-SameStores e w quiet = elim (Option-cases cfg.event_sink) [
    | inl silent ↦ rw (silent, emit) (record { users = refl; sessions = refl; tokens = refl })
    | inr (k, heard) ↦
        rw (heard, emit)
          (elim (Bool-cases (e.at == 0)) [
            | inl unset ↦ rw unset (
                ground (
                  arith,
                  quiet.sink k (record e { at = o.clock w.asked })
                      (record w { asked = w.asked + 1 }) heard,
                ))
            | inr set ↦ rw set (quiet.sink k e w heard)
          ])
  ]

  -- the row as the store keeps it after a write
  abbrev pub next_version : User → User
  next_version u = record u { version = u.version + 1 }

  update_user_alone :
      (u x : User) (users : Map User)
      → IsValid users
      → lookup u.id users ≡ some u
      → x.id ≡ u.id
      → x.email ≡ u.email
      → x.version ≡ u.version
      → update_user x users ≡ (ok tt, insert u.id (next_version x) users)
  unfolding update_user
  update_user_alone u x users v at same_id same_email same_version = ground (
    arith,
    email_taken-eq-false x users v
        (λ j y aty e. v.unique j u.id y u aty at (e ∙ same_email) ∙ sym same_id),
  )

  attempts_land :
      {A : Type 0} (n : ℕ) (f : User → User) (a : User → A) (w : World) (u : User)
      → IsValid w.users
      → lookup u.id w.users ≡ some u
      → (f u).id ≡ u.id
      → (f u).email ≡ u.email
      → (f u).version ≡ u.version
      → attempts (in_memory o cfg) (suc n) u.id (λ x. pure (f x, a x)) w
        ≡ (ok (f u, a u), record w { users = insert u.id (next_version (f u)) w.users })
  unfolding attempts get_user_by_id
  attempts_land n f a w u v at same_id same_email same_version =
      ground (arith, update_user_alone u (f u) w.users v at same_id same_email same_version)

  -- Over a well-formed in-memory store with no other writer, a write of a row that is there, which keeps
  -- the row's id, address and version, lands at the first attempt: it returns, and only that row changes.
  pub retry_lands :
      {A : Type 0} (user_id : ℕ) (f : User → User) (a : User → A) (w : World) (u : User)
      → IsValid w.users
      → lookup user_id w.users ≡ some u
      → (f u).id ≡ u.id
      → (f u).email ≡ u.email
      → (f u).version ≡ u.version
      → update_user_with_retry (in_memory o cfg) user_id (λ x. pure (f x, a x)) w
        ≡ (ok (f u, a u), record w { users = insert user_id (next_version (f u)) w.users })
  unfolding update_user_with_retry
  retry_lands user_id f a w u v at same_id same_email same_version =
      let e = v.keyed user_id u at in
      subst
        (λ k.
          update_user_with_retry (in_memory o cfg) k (λ x. pure (f x, a x)) w
          ≡ (ok (f u, a u), record w { users = insert k (next_version (f u)) w.users }))
        e
        (attempts_land 1 f a w u v (subst (λ k. lookup k w.users ≡ some u) (sym e) at) same_id
          same_email same_version)
