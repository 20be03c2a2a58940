-- ===== src/Sqlite/Totp.antt =====
-- store/sql/sqlite/totp.go and the tables totp_active and totp_pending of schema.sql, each with the user
-- as its key. A counter is below 2^63, so that its column, an int64, holds it.
pub mod Refinement
use sulis.Base.{
  ℕ, Bool, true, false, ◌&&◌, not, Option, none, some, List, [], ◌∷◌, ◌++◌, ltb, ◌==◌,
  if◌then◌else◌,
}
use sulis.Base.Text.{Text, codes}
use sulis.Error.{totp_not_enrolled, totp_already_enrolled, totp_replayed}
use sulis.Exec.{Exec, pure, fail, ◌>>=◌, ◌>>◌}
use sulis.Service.Tokens.{wrapping}
use sulis.Totp.{Credential}
use sulis.Sqlite.{
  Db, any, select_row, count_rows, update_rows, delete_rows, query, execute, execute_counted,
  affected, in_transaction, outcome, read, write,
}

pub record ActiveRow : Type 0 where
  pub user_id : ℕ
  pub id : ℕ
  pub secret : Text
  pub last_used_counter : ℕ
  pub created_at : ℕ

pub record PendingRow : Type 0 where
  pub user_id : ℕ
  pub id : ℕ
  pub secret : Text
  pub created_at : ℕ

pub record TotpTables : Type 0 where
  pub active : List ActiveRow
  pub pending : List PendingRow

abbrev pub is_active : ℕ → ActiveRow → Bool
is_active user_id row = row.user_id == user_id

abbrev pub is_pending : ℕ → PendingRow → Bool
is_pending user_id row = row.user_id == user_id

-- the credential that a row is read as
abbrev pub active_credential : ActiveRow → Credential
active_credential row = record {
  id = row.id;
  user_id = row.user_id;
  secret = row.secret;
  verified = true;
  last_used_counter = row.last_used_counter;
  created_at = row.created_at;
}

abbrev pub pending_credential : PendingRow → Credential
pending_credential row = record {
  id = row.id;
  user_id = row.user_id;
  secret = row.secret;
  verified = false;
  last_used_counter = 0;
  created_at = row.created_at;
}

unfoldable pub get_active_totp : ℕ → Exec (Db TotpTables) Credential
get_active_totp user_id = do
  row ←
      wrapping (codes "sulis/sqlite: reading an active TOTP credential")
        (query λ t. select_row (is_active user_id) t.active)
  elim row [ none ↦ fail totp_not_enrolled | some r ↦ pure (active_credential r) ]

unfoldable pub get_pending_totp : ℕ → Exec (Db TotpTables) Credential
get_pending_totp user_id = do
  row ←
      wrapping (codes "sulis/sqlite: reading a pending TOTP enrollment")
        (query λ t. select_row (is_pending user_id) t.pending)
  elim row [ none ↦ fail totp_not_enrolled | some r ↦ pure (pending_credential r) ]

-- INSERT … ON CONFLICT(user_id) DO UPDATE
unfoldable pub upsert_active : ActiveRow → List ActiveRow → List ActiveRow
upsert_active new rows =
    if any (is_active new.user_id) rows
    then update_rows (is_active new.user_id) (λ row. new) rows
    else rows ++ (new ∷ [])

unfoldable pub upsert_pending : PendingRow → List PendingRow → List PendingRow
upsert_pending new rows =
    if any (is_pending new.user_id) rows
    then update_rows (is_pending new.user_id) (λ row. new) rows
    else rows ++ (new ∷ [])

abbrev pub pending_row : Credential → PendingRow
pending_row cred = record {
  user_id = cred.user_id;
  id = cred.id;
  secret = cred.secret;
  created_at = cred.created_at;
}

-- the INSERT … SELECT of EnrollPending changes a row unless there is an active credential
unfoldable pub enroll_pending : Credential → Exec (Db TotpTables) Unit
enroll_pending cred = do
  changed ← wrapping (codes "sulis/sqlite: enrolling a pending TOTP credential") (
      execute_counted (λ t. if any (is_active cred.user_id) t.active then 0 else 1)
        (λ t.
          if any (is_active cred.user_id) t.active
          then t
          else record t { pending = upsert_pending (pending_row cred) t.pending }))
  n ← affected changed
  if n == 0 then fail totp_already_enrolled else pure tt

unfoldable pub replace_pending : Credential → Exec (Db TotpTables) Unit
replace_pending cred =
    wrapping (codes "sulis/sqlite: replacing a pending TOTP enrollment")
      (execute λ t. record t { pending = upsert_pending (pending_row cred) t.pending })

abbrev pub is_enrollment : ℕ → ℕ → PendingRow → Bool
is_enrollment user_id pending_id row = row.user_id == user_id && row.id == pending_id

-- DELETE … RETURNING
unfoldable pub take_pending : ℕ → ℕ → Exec (Db TotpTables) (Option PendingRow)
take_pending user_id pending_id = do
  outcome
  row ← read λ t. select_row (is_enrollment user_id pending_id) t.pending
  write λ t. record t { pending = delete_rows (is_enrollment user_id pending_id) t.pending }
  pure row

-- the higher of the matched counter and that of the active row; no row leaves `prior` at 0
abbrev pub promoted_counter : Option ActiveRow → ℕ → ℕ
promoted_counter none counter = counter
promoted_counter (some row) counter =
    if ltb 0 row.last_used_counter && ltb counter row.last_used_counter
    then row.last_used_counter
    else counter

-- what follows the taken enrollment
unfoldable pub promote : ℕ → ℕ → PendingRow → Exec (Db TotpTables) Credential
promote user_id counter taken = do
  prior ←
      wrapping (codes "sulis/sqlite: reading the prior TOTP counter")
        (query λ t. select_row (is_active user_id) t.active)
  let promoted : ActiveRow = record {
    user_id = user_id;
    id = taken.id;
    secret = taken.secret;
    last_used_counter = promoted_counter prior counter;
    created_at = taken.created_at;
  }
  wrapping (codes "sulis/sqlite: promoting a TOTP enrollment")
      (execute λ t. record t { active = upsert_active promoted t.active })
  pure (active_credential promoted)

unfoldable pub confirm_enrollment : ℕ → ℕ → ℕ → Exec (Db TotpTables) Credential
confirm_enrollment user_id pending_id counter =
    in_transaction (codes "sulis/sqlite: confirming a TOTP enrollment")
      (codes "sulis/sqlite: committing a TOTP promotion")
      (do
        row ←
            wrapping (codes "sulis/sqlite: confirming a TOTP enrollment")
              (take_pending user_id pending_id)
        elim row [ none ↦ fail totp_not_enrolled | some taken ↦ promote user_id counter taken ])

abbrev pub is_behind : Credential → ActiveRow → Bool
is_behind cred row =
    (row.user_id == cred.user_id && row.id == cred.id)
    && ltb row.last_used_counter cred.last_used_counter

-- refusedSaveError
unfoldable pub refused_save : Credential → Exec (Db TotpTables) Unit
refused_save cred = do
  row ←
      wrapping (codes "sulis/sqlite: reading an active TOTP credential")
        (query λ t. select_row (is_active cred.user_id) t.active)
  elim row [
    | none ↦ fail totp_not_enrolled
    | some r ↦ if r.id == cred.id then fail totp_replayed else fail totp_not_enrolled
  ]

unfoldable pub save_totp : Credential → Exec (Db TotpTables) Unit
save_totp cred =
    in_transaction (codes "sulis/sqlite: saving a TOTP credential")
      (codes "sulis/sqlite: committing a TOTP credential save")
      (do
        changed ← wrapping (codes "sulis/sqlite: saving a TOTP credential") (
            execute_counted (λ t. count_rows (is_behind cred) t.active)
              (λ t. record t {
                active =
                    update_rows (is_behind cred)
                      (λ row. record row { last_used_counter = cred.last_used_counter }) t.active;
              }))
        n ← affected changed
        if n == 0 then refused_save cred else pure tt)

unfoldable pub delete_totp : ℕ → Exec (Db TotpTables) Unit
delete_totp user_id =
    in_transaction (codes "sulis/sqlite: deleting TOTP credentials")
      (codes "sulis/sqlite: committing a TOTP deletion")
      (do
        wrapping (codes "sulis/sqlite: deleting an active TOTP credential")
            (execute λ t. record t { active = delete_rows (is_active user_id) t.active })
        wrapping (codes "sulis/sqlite: deleting a pending TOTP enrollment")
            (execute λ t. record t { pending = delete_rows (is_pending user_id) t.pending }))
