-- ===== src/Postgres/Concurrent.antt =====
-- DeleteCredential of store/sql/postgres/passkey.go on many connections at once, under READ COMMITTED:
-- a statement reads what is committed when it starts, and what a transaction wrote is seen by others
-- from its commit on. A connection is in a phase of one call; the other methods that change
-- credentials without removing any are single statements, and so single steps.
pub mod Exclusion
pub mod Guard
pub mod Rows
pub mod Progress
use sulis.Base.{ℕ, ◌≡◌, ◌≢◌, Bool, true, false, Option, none, some, List, ◌==◌, if◌then◌else◌}
use sulis.Base.Text.{Text}
use sulis.Error.{Result, ok, err}
use sulis.Passkey.{PasskeyCredential}
use sulis.Sqlite.{any, delete_rows}
use sulis.Sqlite.Passkeys.{has_id, is_owned}
use sulis.Postgres.{ℤ, Host, Pg, advisory_key}
use sulis.Postgres.Passkeys.{
  delete_statement, save_credential, rename_credential, update_credential_after_login,
}
use sulis.Postgres.Equivalence.{idle}

-- where a connection stands in DeleteCredential of a user's credential
pub data Phase : Type 0 where
  resting : Phase
  -- the transaction has begun, and lockUser waits
  begun : (user_id id : ℕ) → (allow_last : Bool) → Phase
  -- lockUser has returned
  locked : (user_id id : ℕ) → (allow_last : Bool) → Phase
  -- the DELETE has removed so many rows, and is not committed
  deleted : (user_id id : ℕ) → (allow_last : Bool) → (changed : ℕ) → Phase

pub record System : Type 0 where
  -- what is committed
  pub rows : List PasskeyCredential
  pub phase : ℕ → Phase

abbrev pub key_of : Host → ℕ → ℤ
key_of host user_id = advisory_key host (host.id_text user_id)

-- the key of the advisory lock that the connection holds
abbrev pub holds : Host → Phase → Option ℤ
holds host resting = none
holds host (begun user_id id allow_last) = none
holds host (locked user_id id allow_last) = some (key_of host user_id)
holds host (deleted user_id id allow_last changed) = some (key_of host user_id)

abbrev pub moved : (ℕ → Phase) → ℕ → Phase → ℕ → Phase
moved phase i p j = if j == i then p else phase j

-- the rows after a statement of its own, which commits at once
abbrev pub left_by :
    Pg (List PasskeyCredential) Unit → List PasskeyCredential → List PasskeyCredential
left_by m rows = (m (idle rows)).1.tables.rows

abbrev pub counted : Result ℕ → ℕ
counted (ok n) = n
counted (err e) = 0

-- how many rows the DELETE removes
abbrev pub removed_by : ℕ → ℕ → Bool → List PasskeyCredential → ℕ
removed_by user_id id allow_last rows =
    counted (delete_statement user_id id allow_last (idle rows)).0

-- The steps of the connections. The calls for the kept user do not allow the last credential to go.
pub data Step (host : Host) (kept_user : ℕ) (s : System) : System → Type 0 where
  begins :
      (i user_id id : ℕ) (allow_last : Bool)
      → s.phase i ≡ resting
      → (user_id ≡ kept_user → allow_last ≡ false)
      → Step host kept_user s (record s { phase = moved s.phase i (begun user_id id allow_last) })
  -- pg_advisory_xact_lock returns once no connection holds the lock
  locks :
      (i user_id id : ℕ) (allow_last : Bool)
      → s.phase i ≡ begun user_id id allow_last
      → ((j : ℕ) → holds host (s.phase j) ≢ some (key_of host user_id))
      → Step host kept_user s (record s { phase = moved s.phase i (locked user_id id allow_last) })
  deletes :
      (i user_id id : ℕ) (allow_last : Bool)
      → s.phase i ≡ locked user_id id allow_last
      → Step host kept_user s (record s {
        phase =
            moved s.phase i
              (deleted user_id id allow_last (removed_by user_id id allow_last s.rows));
      })
  commits :
      (i user_id id : ℕ) (allow_last : Bool) (changed : ℕ)
      → s.phase i ≡ deleted user_id id allow_last changed
      → changed ≢ 0
      → Step host kept_user s (record {
        rows = delete_rows (is_owned user_id id) s.rows;
        phase = moved s.phase i resting;
      })
  -- a refusal, or a failure at any point
  rolls_back : (i : ℕ) → Step host kept_user s (record s { phase = moved s.phase i resting })
  -- a registered credential has an id of its own
  saves :
      (cred : PasskeyCredential)
      → any (has_id cred.id) s.rows ≡ false
      → Step host kept_user s (record s { rows = left_by (save_credential cred) s.rows })
  renames :
      (user_id id : ℕ) (name : Text)
      → Step host kept_user s
          (record s { rows = left_by (rename_credential user_id id name) s.rows })
  logs_in :
      (credential_id : Text) (sign_count : ℕ) (backup_state : Bool) (t : ℕ)
      → Step host kept_user s (record s {
        rows =
            left_by (update_credential_after_login credential_id sign_count backup_state t) s.rows;
      })

pub data Reach (host : Host) (kept_user : ℕ) (rows : List PasskeyCredential) : System → Type 0 where
  start : Reach host kept_user rows (record { rows = rows; phase = λ i. resting })
  later :
      {s t : System}
      → Reach host kept_user rows s
      → Step host kept_user s t
      → Reach host kept_user rows t
