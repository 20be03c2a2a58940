-- ===== src/Sqlite/Passkeys.antt =====
-- store/sql/sqlite/passkey.go and the tables passkey_credentials and passkey_challenges of schema.sql.
-- The current time, which the challenges expire by, is an argument.
pub mod Refinement
use sulis.Base.{
  ℕ, ◌+◌, ◌*◌, Bool, true, false, ◌&&◌, ◌||◌, not, Option, none, some, List, [], ◌∷◌, ◌++◌, ltb,
  ◌==◌, if◌then◌else◌,
}
use sulis.Base.Text.{Text, codes, text_eq}
use sulis.Error.{passkey_not_found, last_credential, challenge_not_found}
use sulis.Exec.{Exec, pure, fail, ◌>>=◌, ◌>>◌}
use sulis.Passkey.{PasskeyCredential}
use sulis.Service.Tokens.{wrapping}
use sulis.Sqlite.{
  Db, any, select_row, select_rows, count_rows, update_rows, delete_rows, query, execute,
  execute_unless, execute_counted, affected, in_transaction, outcome, read, write,
}

abbrev pub has_id : ℕ → PasskeyCredential → Bool
has_id id row = row.id == id

-- another row has the credential id
abbrev pub bars_save : PasskeyCredential → PasskeyCredential → Bool
bars_save cred row = not (row.id == cred.id) && text_eq row.credential_id cred.credential_id

-- INSERT … ON CONFLICT(id) DO UPDATE
unfoldable pub upsert : PasskeyCredential → List PasskeyCredential → List PasskeyCredential
upsert cred rows =
    if any (has_id cred.id) rows
    then update_rows (has_id cred.id) (λ row. cred) rows
    else rows ++ (cred ∷ [])

unfoldable pub save_credential : PasskeyCredential → Exec (Db (List PasskeyCredential)) Unit
save_credential cred =
    wrapping (codes "sulis/sqlite: saving a passkey credential")
      (execute_unless (any (bars_save cred)) (upsert cred))

abbrev pub owned_by : ℕ → PasskeyCredential → Bool
owned_by user_id row = row.user_id == user_id

unfoldable pub get_credentials_by_user_id :
    ℕ → Exec (Db (List PasskeyCredential)) (List PasskeyCredential)
get_credentials_by_user_id user_id =
    wrapping (codes "sulis/sqlite: listing a user's passkey credentials")
      (query (select_rows (owned_by user_id)))

abbrev pub has_credential_id : Text → PasskeyCredential → Bool
has_credential_id credential_id row = text_eq row.credential_id credential_id

unfoldable pub get_credential_by_id : Text → Exec (Db (List PasskeyCredential)) PasskeyCredential
get_credential_by_id credential_id = do
  row ←
      wrapping (codes "sulis/sqlite: reading a passkey credential")
        (query (select_row (has_credential_id credential_id)))
  elim row [ none ↦ fail passkey_not_found | some cred ↦ pure cred ]

-- an update that must change a row
abbrev pub on_row :
    Text
    → (PasskeyCredential → Bool)
    → (PasskeyCredential → PasskeyCredential)
    → Exec (Db (List PasskeyCredential)) Unit
on_row message p f = do
  changed ← wrapping message (execute_counted (count_rows p) (update_rows p f))
  n ← affected changed
  if n == 0 then fail passkey_not_found else pure tt

unfoldable pub update_credential_after_login :
    Text → ℕ → Bool → ℕ → Exec (Db (List PasskeyCredential)) Unit
update_credential_after_login credential_id sign_count backup_state t =
    on_row (codes "sulis/sqlite: updating a passkey credential after login")
      (has_credential_id credential_id)
      (λ row. record row {
        sign_count = sign_count;
        backup_state = backup_state;
        last_used_at = some t;
      })

abbrev pub is_owned : ℕ → ℕ → PasskeyCredential → Bool
is_owned user_id id row = row.id == id && row.user_id == user_id

-- ? = 1 OR the subquery counts more than one credential of the user
abbrev pub may_delete : ℕ → Bool → List PasskeyCredential → Bool
may_delete user_id allow_last rows = allow_last || ltb 1 (count_rows (owned_by user_id) rows)

-- the row that the DELETE addresses, if it may be deleted
abbrev pub deletable : ℕ → ℕ → Bool → PasskeyCredential → Bool
deletable user_id id may row = is_owned user_id id row && may

-- why no row was deleted
unfoldable pub refused_delete : ℕ → ℕ → Exec (Db (List PasskeyCredential)) Unit
refused_delete user_id id = do
  exists ←
      wrapping (codes "sulis/sqlite: deleting a passkey credential")
        (query (any (is_owned user_id id)))
  if exists then fail last_credential else fail passkey_not_found

unfoldable pub delete_credential : ℕ → ℕ → Bool → Exec (Db (List PasskeyCredential)) Unit
delete_credential user_id id allow_last =
    in_transaction (codes "sulis/sqlite: deleting a passkey credential")
      (codes "sulis/sqlite: committing a passkey credential deletion")
      (do
        changed ← wrapping (codes "sulis/sqlite: deleting a passkey credential") (
            execute_counted
              (λ rows. count_rows (deletable user_id id (may_delete user_id allow_last rows)) rows)
              (λ rows.
                delete_rows (deletable user_id id (may_delete user_id allow_last rows)) rows))
        n ← affected changed
        if n == 0 then refused_delete user_id id else pure tt)

unfoldable pub delete_credentials_by_user_id : ℕ → Exec (Db (List PasskeyCredential)) Unit
delete_credentials_by_user_id user_id =
    wrapping (codes "sulis/sqlite: deleting a user's passkey credentials")
      (execute (delete_rows (owned_by user_id)))

unfoldable pub rename_credential : ℕ → ℕ → Text → Exec (Db (List PasskeyCredential)) Unit
rename_credential user_id id name =
    on_row (codes "sulis/sqlite: renaming a passkey credential") (is_owned user_id id)
      (λ row. record row { name = name })

-- a row of passkey_challenges
pub record Challenge : Type 0 where
  pub challenge_key : Text
  pub session_data : Text
  pub created_at : ℕ
  pub expires_at : ℕ

-- 5 * time.Minute
abbrev pub default_challenge_ttl : ℕ
default_challenge_ttl = 300 * 1000000000

unfoldable pub ttl : ℕ → ℕ
ttl configured = if ltb 0 configured then configured else default_challenge_ttl

abbrev pub has_key : Text → Challenge → Bool
has_key key row = text_eq row.challenge_key key

unfoldable pub upsert_challenge : Challenge → List Challenge → List Challenge
upsert_challenge challenge rows =
    if any (has_key challenge.challenge_key) rows
    then update_rows (has_key challenge.challenge_key) (λ row. challenge) rows
    else rows ++ (challenge ∷ [])

-- the configured lifetime, the time, the key and the data
unfoldable pub save_challenge : ℕ → ℕ → Text → Text → Exec (Db (List Challenge)) Unit
save_challenge configured now key session_data =
    wrapping (codes "sulis/sqlite: saving a passkey challenge") (
      execute (
        upsert_challenge (record {
          challenge_key = key;
          session_data = session_data;
          created_at = now;
          expires_at = now + ttl configured;
        })))

-- DELETE … RETURNING
unfoldable pub consume_statement : Text → Exec (Db (List Challenge)) (Option Challenge)
consume_statement key = do
  outcome
  row ← read (select_row (has_key key))
  write (delete_rows (has_key key))
  pure row

unfoldable pub consume_challenge : ℕ → Text → Exec (Db (List Challenge)) Text
consume_challenge now key = do
  row ← wrapping (codes "sulis/sqlite: consuming a passkey challenge") (consume_statement key)
  elim row [
    | none ↦ fail challenge_not_found
    | some challenge ↦
        if not (ltb now challenge.expires_at)
        then fail challenge_not_found
        else pure challenge.session_data
  ]

abbrev pub is_expired : ℕ → Challenge → Bool
is_expired now row = ltb row.expires_at now

unfoldable pub delete_expired_challenges : ℕ → Exec (Db (List Challenge)) Unit
delete_expired_challenges now =
    wrapping (codes "sulis/sqlite: deleting expired passkey challenges")
      (execute (delete_rows (is_expired now)))
