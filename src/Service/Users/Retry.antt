-- ===== src/Service/Users/Retry.antt =====
-- What a write through updateUserWithRetry has done when it returns.
use sulis.Base.{ℕ, zero, suc, ◌≡◌, inl, inr, arith}
use sulis.Error.{ok, Result-cases}
use sulis.Exec.{Exec, >>=-eq-ok}
use sulis.Model.{User}
use sulis.Service.{Sulis}
use sulis.Service.Users.{attempts, update_user_with_retry, max_user_update_retries}

module _ {W : Type 0} (s : Sulis W) {A : Type 0} where
  -- The write that landed: a row read from the store, changed by the mutation, accepted by the store,
  -- with no step between the three.
  pub record Landed (user_id : ℕ) (mutate : User → Exec W (User × A)) (changed : User × A) (v : W)
      : Type 0 where
    pub before : W
    pub read : W
    pub mutated : W
    pub row : User
    pub reads : s.users.get_user_by_id user_id before ≡ (ok row, read)
    pub mutates : mutate row read ≡ (ok changed, mutated)
    pub writes : s.users.update_user changed.0 mutated ≡ (ok tt, v)

  attempts-Landed :
      (n user_id : ℕ) (mutate : User → Exec W (User × A)) (w v : W) (changed : User × A)
      → attempts s n user_id mutate w ≡ (ok changed, v)
      → Landed user_id mutate changed v
  unfolding attempts
  attempts-Landed zero user_id mutate w v changed h =
      let (row, read, reads, h1) = >>=-eq-ok (s.users.get_user_by_id user_id) _ w h in
      let (c, mutated, mutates, h2) = >>=-eq-ok (mutate row) _ read h1 in
      record {
        before = w;
        read = read;
        mutated = mutated;
        row = row;
        reads = reads;
        mutates = ground arith;
        writes = ground arith;
      }
  attempts-Landed (suc n) user_id mutate w v changed h =
      let (row, read, reads, h1) = >>=-eq-ok (s.users.get_user_by_id user_id) _ w h in
      let (c, mutated, mutates, h2) = >>=-eq-ok (mutate row) _ read h1 in
      elim (Result-cases (s.users.update_user c.0 mutated).0) [
        | inl (_, accepted) ↦ record {
          before = w;
          read = read;
          mutated = mutated;
          row = row;
          reads = reads;
          mutates = ground arith;
          writes = ground arith;
        }
        | inr (e, refused) ↦
            attempts-Landed n user_id mutate (s.users.update_user c.0 mutated).1 v changed
              (ground arith)
      ]

  -- When updateUserWithRetry returns, the write that landed was computed by the mutation from the row
  -- that the store had just returned, whatever other attempts came before.
  pub update_user_with_retry-Landed :
      (user_id : ℕ) (mutate : User → Exec W (User × A)) (w v : W) (changed : User × A)
      → update_user_with_retry s user_id mutate w ≡ (ok changed, v)
      → Landed user_id mutate changed v
  unfolding update_user_with_retry
  update_user_with_retry-Landed user_id mutate w v changed h =
      attempts-Landed max_user_update_retries user_id mutate w v changed h
