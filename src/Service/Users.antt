-- ===== src/Service/Users.antt =====
-- updateUserWithRetry of sulis.go. A mutation is given the row that was read; what its closure
-- records on the side is returned beside the user.
pub mod Retry
pub mod Contention
use sulis.Base.{ℕ, zero, suc, Option, none, some, List, [], ◌∷◌, if◌then◌else◌}
use sulis.Error.{Error, Result, ok, err, errors_is, concurrent_update}
use sulis.Exec.{Exec, pure, throw, attempt, ◌>>=◌, ◌>>◌}
use sulis.Model.{User}
use sulis.Service.{Sulis}

-- `maxUserUpdateAttempts` is one attempt and so many more
abbrev pub max_user_update_retries : ℕ
max_user_update_retries = 2

module _ {W : Type 0} (s : Sulis W) {A : Type 0} where
  unfoldable pub attempts : ℕ → ℕ → (User → Exec W (User × A)) → Exec W (User × A)
  attempts zero user_id mutate = do
    user ← s.users.get_user_by_id user_id
    changed ← mutate user
    s.users.update_user changed.0
    pure changed
  attempts (suc more) user_id mutate =
      let again = attempts more user_id mutate in
      do
        user ← s.users.get_user_by_id user_id
        changed ← mutate user
        written ← attempt (s.users.update_user changed.0)
        elim written [
          | ok _ ↦ pure changed
          | err e ↦ if errors_is e concurrent_update then again else throw e
        ]

  unfoldable pub update_user_with_retry : ℕ → (User → Exec W (User × A)) → Exec W (User × A)
  unfolding attempts
  update_user_with_retry user_id mutate = attempts max_user_update_retries user_id mutate
