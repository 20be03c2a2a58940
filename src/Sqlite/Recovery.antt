-- ===== src/Sqlite/Recovery.antt =====
-- store/sql/sqlite/recovery.go and the table recovery_codes of schema.sql, whose key is the user with
-- the hash. The current time, which the rows are stamped with, is an argument.
pub mod Refinement
use sulis.Base.{
  ℕ, suc, Bool, true, false, ◌&&◌, Option, none, some, List, [], ◌∷◌, ◌++◌, ◌==◌, if◌then◌else◌,
}
use sulis.Base.Text.{Text, codes, text_eq}
use sulis.Error.{code_not_found}
use sulis.Exec.{Exec, pure, fail, ◌>>=◌, ◌>>◌}
use sulis.Service.Tokens.{wrapping}
use sulis.Sqlite.{
  Db, any, count_rows, delete_rows, query, execute, execute_unless, execute_counted, affected,
  in_transaction,
}

pub record CodeRow : Type 0 where
  pub user_id : ℕ
  pub code_hash : Text
  pub created_at : ℕ

abbrev pub owned_by : ℕ → CodeRow → Bool
owned_by user_id row = row.user_id == user_id

abbrev pub is_code : ℕ → Text → CodeRow → Bool
is_code user_id hash row = row.user_id == user_id && text_eq row.code_hash hash

-- the loop over the hashes
unfoldable pub insert_codes : ℕ → ℕ → List Text → Exec (Db (List CodeRow)) Unit
insert_codes now user_id [] = pure tt
insert_codes now user_id (hash ∷ hashes) = do
  wrapping (codes "sulis/sqlite: storing a recovery code") (
      execute_unless (any (is_code user_id hash))
        (λ rows. rows ++ (record { user_id = user_id; code_hash = hash; created_at = now } ∷ [])))
  insert_codes now user_id hashes

unfoldable pub replace_codes : ℕ → ℕ → List Text → Exec (Db (List CodeRow)) Unit
replace_codes now user_id hashes =
    in_transaction (codes "sulis/sqlite: replacing recovery codes")
      (codes "sulis/sqlite: committing a recovery code replacement")
      (do
        wrapping (codes "sulis/sqlite: clearing the previous recovery codes")
            (execute (delete_rows (owned_by user_id)))
        insert_codes now user_id hashes)

unfoldable pub consume_code : ℕ → Text → Exec (Db (List CodeRow)) ℕ
consume_code user_id hash =
    in_transaction (codes "sulis/sqlite: consuming a recovery code")
      (codes "sulis/sqlite: committing a recovery code consumption")
      (do
        changed ← wrapping (codes "sulis/sqlite: consuming a recovery code") (
            execute_counted (count_rows (is_code user_id hash))
              (delete_rows (is_code user_id hash)))
        n ← affected changed
        if n == 0
            then fail code_not_found
            else wrapping (codes "sulis/sqlite: counting the remaining recovery codes")
                (query (count_rows (owned_by user_id))))

unfoldable pub count_codes : ℕ → Exec (Db (List CodeRow)) ℕ
count_codes user_id =
    wrapping (codes "sulis/sqlite: counting recovery codes") (query (count_rows (owned_by user_id)))

unfoldable pub delete_codes : ℕ → Exec (Db (List CodeRow)) Unit
delete_codes user_id =
    wrapping (codes "sulis/sqlite: deleting recovery codes")
      (execute (delete_rows (owned_by user_id)))
