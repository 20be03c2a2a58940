-- ===== src/Postgres/Totp.antt =====
-- store/sql/postgres/totp.go. A counter is below 2^63, so that its column, an int64, holds it.
use sulis.Base.{ℕ, Option, none, some, ◌==◌, if◌then◌else◌}
use sulis.Base.Text.{Text, codes}
use sulis.Error.{totp_not_enrolled, totp_already_enrolled, totp_replayed}
use sulis.Exec.{pure, fail, ◌>>=◌, ◌>>◌}
use sulis.Service.Tokens.{wrapping}
use sulis.Totp.{Credential}
use sulis.Sqlite.{any, select_row, count_rows, update_rows, delete_rows, outcome, read, write}
use sulis.Sqlite.Totp.{
  ActiveRow, PendingRow, TotpTables, is_active, is_pending, active_credential, pending_credential,
  upsert_active, upsert_pending, pending_row, is_enrollment, promoted_counter, is_behind,
}
use sulis.Postgres.{
  Host, Pg, query, execute, execute_counted, affected, on_rows, transaction, lock_user,
  advisory_class_totp,
}

unfoldable pub get_active_totp : ℕ → Pg TotpTables Credential
get_active_totp user_id = do
  row ←
      wrapping (codes "sulis/postgres: reading an active TOTP credential")
        (query λ t. select_row (is_active user_id) t.active)
  elim row [ none ↦ fail totp_not_enrolled | some r ↦ pure (active_credential r) ]

unfoldable pub get_pending_totp : ℕ → Pg TotpTables Credential
get_pending_totp user_id = do
  row ←
      wrapping (codes "sulis/postgres: reading a pending TOTP enrollment")
        (query λ t. select_row (is_pending user_id) t.pending)
  elim row [ none ↦ fail totp_not_enrolled | some r ↦ pure (pending_credential r) ]

-- the texts of lockedExec: of its statement, of its row count and of its commit
pub record Operation : Type 0 where
  pub op : Text
  pub counting : Text
  pub committing : Text

abbrev pub enrolling : Operation
enrolling = record {
  op = codes "sulis/postgres: enrolling a pending TOTP credential";
  counting =
      codes "sulis/postgres: enrolling a pending TOTP credential: reading the affected row count";
  committing = codes "sulis/postgres: committing while enrolling a pending TOTP credential";
}

abbrev pub replacing : Operation
replacing = record {
  op = codes "sulis/postgres: replacing a pending TOTP enrollment";
  counting =
      codes "sulis/postgres: replacing a pending TOTP enrollment: reading the affected row count";
  committing = codes "sulis/postgres: committing while replacing a pending TOTP enrollment";
}

unfoldable pub locked_exec : Host → ℕ → Operation → Pg TotpTables ℕ → Pg TotpTables ℕ
locked_exec host user_id operation statement = transaction operation.op operation.committing (do
  lock_user host advisory_class_totp user_id
  changed ← wrapping operation.op statement
  affected changed operation.counting)

-- the INSERT … SELECT, which changes a row unless there is an active credential
unfoldable pub enroll_statement : Credential → Pg TotpTables ℕ
enroll_statement cred =
    execute_counted (λ t. if any (is_active cred.user_id) t.active then 0 else 1)
      (λ t.
        if any (is_active cred.user_id) t.active
        then t
        else record t { pending = upsert_pending (pending_row cred) t.pending })

unfoldable pub enroll_pending : Host → Credential → Pg TotpTables Unit
unfolding enroll_statement
enroll_pending host cred = do
  n ← locked_exec host cred.user_id enrolling (enroll_statement cred)
  if n == 0 then fail totp_already_enrolled else pure tt

unfoldable pub replace_pending : Host → Credential → Pg TotpTables Unit
replace_pending host cred = do
  n ← locked_exec host cred.user_id replacing (
      execute_counted (λ t. 1)
        (λ t. record t { pending = upsert_pending (pending_row cred) t.pending }))
  pure tt

-- DELETE … RETURNING
unfoldable pub take_pending : ℕ → ℕ → Pg TotpTables (Option PendingRow)
take_pending user_id pending_id = do
  outcome
  row ← read λ t. select_row (is_enrollment user_id pending_id) t.rows.pending
  write
      (on_rows λ t. record t { pending = delete_rows (is_enrollment user_id pending_id) t.pending })
  pure row

-- what follows the taken enrollment
unfoldable pub promote : ℕ → ℕ → PendingRow → Pg TotpTables Credential
promote user_id counter taken = do
  prior ←
      wrapping (codes "sulis/postgres: reading the prior TOTP counter")
        (query λ t. select_row (is_active user_id) t.active)
  let promoted : ActiveRow = record {
    user_id = user_id;
    id = taken.id;
    secret = taken.secret;
    last_used_counter = promoted_counter prior counter;
    created_at = taken.created_at;
  }
  wrapping (codes "sulis/postgres: promoting a TOTP enrollment")
      (execute λ t. record t { active = upsert_active promoted t.active })
  pure (active_credential promoted)

unfoldable pub confirm_enrollment : Host → ℕ → ℕ → ℕ → Pg TotpTables Credential
confirm_enrollment host user_id pending_id counter =
    transaction (codes "sulis/postgres: confirming a TOTP enrollment")
      (codes "sulis/postgres: committing a TOTP promotion")
      (do
        lock_user host advisory_class_totp user_id
        row ←
            wrapping (codes "sulis/postgres: confirming a TOTP enrollment")
              (take_pending user_id pending_id)
        elim row [ none ↦ fail totp_not_enrolled | some taken ↦ promote user_id counter taken ])

-- refusedSaveError
unfoldable pub refused_save : Credential → Pg TotpTables Unit
refused_save cred = do
  row ←
      wrapping (codes "sulis/postgres: reading an active TOTP credential")
        (query λ t. select_row (is_active cred.user_id) t.active)
  elim row [
    | none ↦ fail totp_not_enrolled
    | some r ↦ if r.id == cred.id then fail totp_replayed else fail totp_not_enrolled
  ]

unfoldable pub save_totp : Host → Credential → Pg TotpTables Unit
save_totp host cred =
    transaction (codes "sulis/postgres: saving a TOTP credential")
      (codes "sulis/postgres: committing a TOTP credential save")
      (do
        lock_user host advisory_class_totp cred.user_id
        changed ← wrapping (codes "sulis/postgres: saving a TOTP credential") (
            execute_counted (λ t. count_rows (is_behind cred) t.active)
              (λ t. record t {
                active =
                    update_rows (is_behind cred)
                      (λ row. record row { last_used_counter = cred.last_used_counter }) t.active;
              }))
        n ←
            affected changed
              (codes "sulis/postgres: saving a TOTP credential: reading the affected row count")
        if n == 0 then refused_save cred else pure tt)

unfoldable pub delete_totp : Host → ℕ → Pg TotpTables Unit
delete_totp host user_id =
    transaction (codes "sulis/postgres: deleting TOTP credentials")
      (codes "sulis/postgres: committing a TOTP deletion")
      (do
        lock_user host advisory_class_totp user_id
        wrapping (codes "sulis/postgres: deleting an active TOTP credential")
            (execute λ t. record t { active = delete_rows (is_active user_id) t.active })
        wrapping (codes "sulis/postgres: deleting a pending TOTP enrollment")
            (execute λ t. record t { pending = delete_rows (is_pending user_id) t.pending }))
