-- ===== src/Memstore/Users/Validity.antt =====
-- The users of memstore/user.go stay well formed: a row stands under its own id, and no two rows have
-- one address.
use sulis.Base.{
  ℕ, ◌≡◌, ◌↔◌, false, some, arith, is_some, Option-cases, inl, inr, ◌==◌, Bool-cases, ◌+◌,
}
use sulis.Base.Text.{Text, text_eq_iff}
use sulis.Base.Map.{
  Map, lookup, insert, delete, find, DistinctKeys, lookup-insert, lookup-delete,
  insert-DistinctKeys, delete-DistinctKeys, find-none, find-some,
}
use sulis.Error.{Result, ok}
use sulis.Model.{User}
use sulis.Memstore.Users.{
  create_user, update_user, delete_user, get_user_by_email, email_taken, holds_email, has_email,
}

pub record IsValid (users : Map User) : Type 0 where
  pub distinct : DistinctKeys users
  pub keyed : (id : ℕ) (u : User) → lookup id users ≡ some u → u.id ≡ id
  pub unique :
      (i j : ℕ) (u v : User)
      → lookup i users ≡ some u
      → lookup j users ≡ some v
      → u.email ≡ v.email
      → i ≡ j

-- the calls that write
pub data Write : Type 0 where
  creates updates : User → Write
  deletes : ℕ → Write

unfoldable pub run : Write → Map User → Result (Unit {0}) × Map User
run (creates u) users = create_user u users
run (updates u) users = update_user u users
run (deletes id) users = delete_user id users

-- An address that is not taken is the address of no other row.
pub email_free :
    (email : Text) (id : ℕ) (users : Map User) (j : ℕ) (v : User)
    → email_taken email id users ≡ false
    → lookup j users ≡ some v
    → v.email ≡ email
    → j ≡ id
unfolding email_taken
email_free email id users j v free at e =
    ground (arith, text_eq_iff v.email email, find-none (holds_email email id) users j v)

insert-IsValid :
    (u : User) (users : Map User)
    → email_taken u.email u.id users ≡ false
    → IsValid users
    → IsValid (insert u.id u users)
insert-IsValid u users free v = record {
  distinct = insert-DistinctKeys u.id u users v.distinct;
  keyed = λ id x h. ground (arith, lookup-insert u.id id u users, v.keyed id x);
  unique = λ i j x y hx hy e. ground (
    arith,
    lookup-insert u.id i u users,
    lookup-insert u.id j u users,
    v.unique i j x y,
    email_free u.email u.id users i x free,
    email_free u.email u.id users j y free,
  );
}

delete-IsValid : (id : ℕ) (users : Map User) → IsValid users → IsValid (delete id users)
delete-IsValid id users v = record {
  distinct = delete-DistinctKeys id users v.distinct;
  keyed = λ j x h. ground (arith, lookup-delete id j users, v.keyed j x);
  unique = λ i j x y hx hy e.
      ground (arith, lookup-delete id i users, lookup-delete id j users, v.unique i j x y);
}

create_user-IsValid :
    (u : User) (users : Map User) → IsValid users → IsValid (create_user u users).1
unfolding create_user
create_user-IsValid u users v = elim (Bool-cases (is_some (lookup u.id users))) [
  | inl present ↦ rw present v
  | inr absent ↦ rw absent (elim (Bool-cases (email_taken u.email u.id users)) [
    | inl taken ↦ rw taken v
    | inr free ↦ rw free (insert-IsValid u users free v)
  ])
]

update_user-IsValid :
    (u : User) (users : Map User) → IsValid users → IsValid (update_user u users).1
unfolding update_user
update_user-IsValid u users v = elim (Option-cases (lookup u.id users)) [
  | inl absent ↦ rw (absent, update_user) v
  | inr (existing, present) ↦
      rw (present, update_user)
        (elim (Bool-cases (existing.version == u.version)) [
          | inl same ↦ rw same (elim (Bool-cases (email_taken u.email u.id users)) [
            | inl taken ↦ rw taken v
            | inr free ↦
                rw free (insert-IsValid (record u { version = existing.version + 1 }) users free v)
          ])
          | inr stale ↦ rw stale v
        ])
]

-- Every write, refused or not, keeps the store well formed: distinct keys, each row under its own id,
-- and no address held by two rows.
pub run-IsValid : (call : Write) (users : Map User) → IsValid users → IsValid (run call users).1
unfolding run delete_user
run-IsValid (creates u) users v = create_user-IsValid u users v
run-IsValid (updates u) users v = update_user-IsValid u users v
run-IsValid (deletes id) users v = delete-IsValid id users v

get_user_by_email_sound :
    (email : Text) (users : Map User) (u : User)
    → IsValid users
    → (get_user_by_email email users).0 ≡ ok u
    → (lookup u.id users ≡ some u) × (u.email ≡ email)
unfolding get_user_by_email
get_user_by_email_sound email users u v h = elim (Option-cases (find (has_email email) users)) [
  | inl missing ↦ ground (arith, missing)
  | inr ((id, x), found) ↦ ground (
    arith,
    found,
    find-some (has_email email) users id x v.distinct found,
    v.keyed id x,
    text_eq_iff x.email email,
  )
]

get_user_by_email_complete :
    (email : Text) (users : Map User) (u : User)
    → IsValid users
    → lookup u.id users ≡ some u
    → u.email ≡ email
    → (get_user_by_email email users).0 ≡ ok u
unfolding get_user_by_email
get_user_by_email_complete email users u v at e =
    elim (Option-cases (find (has_email email) users)) [
      | inl missing ↦
          ground
            (arith, find-none (has_email email) users u.id u missing at, text_eq_iff u.email email)
      | inr ((id, x), found) ↦ ground (
        arith,
        found,
        find-some (has_email email) users id x v.distinct found,
        v.unique u.id id u x at,
        text_eq_iff x.email email,
      )
    ]

-- In a well-formed store, GetUserByEmail returns exactly the row that holds the address.
get_user_by_email_iff :
    (email : Text) (users : Map User) (u : User)
    → IsValid users
    → ((get_user_by_email email users).0 ≡ ok u)
      ↔ ((lookup u.id users ≡ some u) × (u.email ≡ email))
get_user_by_email_iff email users u v = (
  λ found. get_user_by_email_sound email users u v found,
  λ held. get_user_by_email_complete email users u v held.0 held.1,
)
