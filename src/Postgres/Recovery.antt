-- ===== src/Postgres/Recovery.antt =====
-- store/sql/postgres/recovery.go. The current time, which the rows are stamped with, is an argument.
use sulis.Base.{ℕ, List, [], ◌∷◌, ◌++◌, ◌==◌, if◌then◌else◌}
use sulis.Base.Text.{Text, codes}
use sulis.Error.{code_not_found}
use sulis.Exec.{pure, fail, ◌>>=◌, ◌>>◌}
use sulis.Service.Tokens.{wrapping}
use sulis.Sqlite.{any, count_rows, delete_rows}
use sulis.Sqlite.Recovery.{CodeRow, owned_by, is_code}
use sulis.Postgres.{
  Host, Pg, query, execute, execute_unless, execute_counted, affected, transaction, lock_user,
  advisory_class_recovery,
}

-- the loop over the hashes
unfoldable pub insert_codes : ℕ → ℕ → List Text → Pg (List CodeRow) Unit
insert_codes now user_id [] = pure tt
insert_codes now user_id (hash ∷ hashes) = do
  wrapping (codes "sulis/postgres: storing a recovery code") (
      execute_unless (any (is_code user_id hash))
        (λ rows. rows ++ (record { user_id = user_id; code_hash = hash; created_at = now } ∷ [])))
  insert_codes now user_id hashes

unfoldable pub replace_codes : ℕ → ℕ → List Text → Pg (List CodeRow) Unit
replace_codes now user_id hashes =
    transaction (codes "sulis/postgres: replacing recovery codes")
      (codes "sulis/postgres: committing a recovery code replacement")
      (do
        wrapping (codes "sulis/postgres: clearing the previous recovery codes")
            (execute (delete_rows (owned_by user_id)))
        insert_codes now user_id hashes)

unfoldable pub consume_code : Host → ℕ → Text → Pg (List CodeRow) ℕ
consume_code host user_id hash =
    transaction (codes "sulis/postgres: consuming a recovery code")
      (codes "sulis/postgres: committing a recovery code consumption")
      (do
        lock_user host advisory_class_recovery user_id
        changed ← wrapping (codes "sulis/postgres: consuming a recovery code") (
            execute_counted (count_rows (is_code user_id hash))
              (delete_rows (is_code user_id hash)))
        n ←
            affected changed
              (codes "sulis/postgres: consuming a recovery code: reading the affected row count")
        if n == 0
            then fail code_not_found
            else wrapping (codes "sulis/postgres: counting the remaining recovery codes")
                (query (count_rows (owned_by user_id))))

unfoldable pub count_codes : ℕ → Pg (List CodeRow) ℕ
count_codes user_id =
    wrapping (codes "sulis/postgres: counting recovery codes")
      (query (count_rows (owned_by user_id)))

unfoldable pub delete_codes : ℕ → Pg (List CodeRow) Unit
delete_codes user_id =
    wrapping (codes "sulis/postgres: deleting recovery codes")
      (execute (delete_rows (owned_by user_id)))
