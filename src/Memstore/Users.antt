-- ===== src/Memstore/Users.antt =====
-- memstore/user.go
pub mod Validity
pub mod Versions
use sulis.Base.{
  ℕ, ◌+◌, Bool, true, false, ◌&&◌, not, Option, none, some, ◌==◌, if◌then◌else◌, is_some,
}
use sulis.Base.Text.{Text, text_eq}
use sulis.Base.Map.{Map, lookup, insert, delete, find}
use sulis.Error.{Error, user_not_found, user_already_exists, concurrent_update}
use sulis.Exec.{Exec, pure, fail}
use sulis.Model.{User}

-- some other row has the address
abbrev pub holds_email : Text → ℕ → ℕ → User → Bool
holds_email email except_id id u = not (id == except_id) && text_eq u.email email

unfoldable pub email_taken : Text → ℕ → Map User → Bool
email_taken email except_id users = is_some (find (holds_email email except_id) users)

unfoldable pub create_user : User → Exec (Map User) Unit
unfolding email_taken
create_user user users =
    if is_some (lookup user.id users)
    then fail user_already_exists users
    else if email_taken user.email user.id users
    then fail user_already_exists users
    else pure tt (insert user.id user users)

unfoldable pub get_user_by_id : ℕ → Exec (Map User) User
get_user_by_id id users = elim (lookup id users) [
  | none ↦ fail user_not_found users
  | some u ↦ pure u users
]

abbrev pub has_email : Text → ℕ → User → Bool
has_email email id u = text_eq u.email email

unfoldable pub get_user_by_email : Text → Exec (Map User) User
get_user_by_email email users = elim (find (has_email email) users) [
  | none ↦ fail user_not_found users
  | some (id, u) ↦ pure u users
]

unfoldable pub update_user : User → Exec (Map User) Unit
unfolding email_taken
update_user user users = elim (lookup user.id users) [
  | none ↦ fail user_not_found users
  | some existing ↦
      if not (existing.version == user.version)
      then fail concurrent_update users
      else if email_taken user.email user.id users
      then fail user_already_exists users
      else pure tt (insert user.id (record user { version = existing.version + 1 }) users)
]

unfoldable pub delete_user : ℕ → Exec (Map User) Unit
delete_user id users = pure tt (delete id users)
