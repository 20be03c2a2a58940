-- ===== src/Postgres/Passkeys.antt =====
-- store/sql/postgres/passkey.go. The current time, which the challenges expire by, is an argument.
use sulis.Base.{ℕ, ◌+◌, Bool, not, Option, none, some, List, ltb, ◌==◌, if◌then◌else◌}
use sulis.Base.Text.{Text, codes}
use sulis.Error.{passkey_not_found, last_credential, challenge_not_found}
use sulis.Exec.{pure, fail, ◌>>=◌, ◌>>◌}
use sulis.Passkey.{PasskeyCredential}
use sulis.Service.Tokens.{wrapping}
use sulis.Sqlite.{
  any, select_row, select_rows, count_rows, update_rows, delete_rows, outcome, read, write,
}
use sulis.Sqlite.Passkeys.{
  Challenge, bars_save, upsert, owned_by, has_credential_id, is_owned, may_delete, deletable, ttl,
  upsert_challenge, has_key, is_expired,
}
use sulis.Postgres.{
  Host, Pg, query, execute, execute_unless, execute_counted, affected, on_rows, transaction,
  lock_user, advisory_class_passkey,
}

unfoldable pub save_credential : PasskeyCredential → Pg (List PasskeyCredential) Unit
save_credential cred =
    wrapping (codes "sulis/postgres: saving a passkey credential")
      (execute_unless (any (bars_save cred)) (upsert cred))

unfoldable pub get_credentials_by_user_id : ℕ → Pg (List PasskeyCredential) (List PasskeyCredential)
get_credentials_by_user_id user_id =
    wrapping (codes "sulis/postgres: listing a user's passkey credentials")
      (query (select_rows (owned_by user_id)))

unfoldable pub get_credential_by_id : Text → Pg (List PasskeyCredential) PasskeyCredential
get_credential_by_id credential_id = do
  row ←
      wrapping (codes "sulis/postgres: reading a passkey credential")
        (query (select_row (has_credential_id credential_id)))
  elim row [ none ↦ fail passkey_not_found | some cred ↦ pure cred ]

-- an update that must change a row
abbrev pub on_row :
    Text
    → Text
    → (PasskeyCredential → Bool)
    → (PasskeyCredential → PasskeyCredential)
    → Pg (List PasskeyCredential) Unit
on_row message counting p f = do
  changed ← wrapping message (execute_counted (count_rows p) (update_rows p f))
  n ← affected changed counting
  if n == 0 then fail passkey_not_found else pure tt

abbrev pub updating_counting : Text
updating_counting =
    codes
      "sulis/postgres: updating a passkey credential after login: reading the affected row count"

unfoldable pub update_credential_after_login :
    Text → ℕ → Bool → ℕ → Pg (List PasskeyCredential) Unit
update_credential_after_login credential_id sign_count backup_state t =
    on_row (codes "sulis/postgres: updating a passkey credential after login") updating_counting
      (has_credential_id credential_id)
      (λ row. record row {
        sign_count = sign_count;
        backup_state = backup_state;
        last_used_at = some t;
      })

-- why no row was deleted
unfoldable pub refused_delete : ℕ → ℕ → Pg (List PasskeyCredential) Unit
refused_delete user_id id = do
  exists ←
      wrapping (codes "sulis/postgres: deleting a passkey credential")
        (query (any (is_owned user_id id)))
  if exists then fail last_credential else fail passkey_not_found

-- the DELETE with the number of rows that it removed
unfoldable pub delete_statement : ℕ → ℕ → Bool → Pg (List PasskeyCredential) ℕ
delete_statement user_id id allow_last =
    execute_counted
      (λ rows. count_rows (deletable user_id id (may_delete user_id allow_last rows)) rows)
      (λ rows. delete_rows (deletable user_id id (may_delete user_id allow_last rows)) rows)

unfoldable pub delete_credential : Host → ℕ → ℕ → Bool → Pg (List PasskeyCredential) Unit
delete_credential host user_id id allow_last =
    transaction (codes "sulis/postgres: deleting a passkey credential")
      (codes "sulis/postgres: committing a passkey credential deletion")
      (do
        lock_user host advisory_class_passkey user_id
        changed ←
            wrapping (codes "sulis/postgres: deleting a passkey credential")
              (delete_statement user_id id allow_last)
        n ←
            affected changed (
              codes "sulis/postgres: deleting a passkey credential: reading the affected row count")
        if n == 0 then refused_delete user_id id else pure tt)

unfoldable pub delete_credentials_by_user_id : ℕ → Pg (List PasskeyCredential) Unit
delete_credentials_by_user_id user_id =
    wrapping (codes "sulis/postgres: deleting a user's passkey credentials")
      (execute (delete_rows (owned_by user_id)))

unfoldable pub rename_credential : ℕ → ℕ → Text → Pg (List PasskeyCredential) Unit
rename_credential user_id id name =
    on_row (codes "sulis/postgres: renaming a passkey credential")
      (codes "sulis/postgres: renaming a passkey credential: reading the affected row count")
      (is_owned user_id id) (λ row. record row { name = name })

-- the configured lifetime, the time, the key and the data
unfoldable pub save_challenge : ℕ → ℕ → Text → Text → Pg (List Challenge) Unit
save_challenge configured now key session_data =
    wrapping (codes "sulis/postgres: saving a passkey challenge") (
      execute (
        upsert_challenge (record {
          challenge_key = key;
          session_data = session_data;
          created_at = now;
          expires_at = now + ttl configured;
        })))

-- DELETE … RETURNING
unfoldable pub consume_statement : Text → Pg (List Challenge) (Option Challenge)
consume_statement key = do
  outcome
  row ← read λ t. select_row (has_key key) t.rows
  write (on_rows (delete_rows (has_key key)))
  pure row

unfoldable pub consume_challenge : ℕ → Text → Pg (List Challenge) Text
consume_challenge now key = do
  row ← wrapping (codes "sulis/postgres: consuming a passkey challenge") (consume_statement key)
  elim row [
    | none ↦ fail challenge_not_found
    | some challenge ↦
        if not (ltb now challenge.expires_at)
        then fail challenge_not_found
        else pure challenge.session_data
  ]

unfoldable pub delete_expired_challenges : ℕ → Pg (List Challenge) Unit
delete_expired_challenges now =
    wrapping (codes "sulis/postgres: deleting expired passkey challenges")
      (execute (delete_rows (is_expired now)))
