-- ===== src/Postgres/Locks.antt =====
-- The end of a transaction of store/sql/postgres: its rows and its advisory locks.
use sulis.Base.{ℕ, ◌≡◌, ◌≢◌, refl, [], arith, Bool-cases, inl, inr, subst, sym, ap, ◌∙◌}
use sulis.Base.Text.{Text}
use sulis.Error.{Error, Result, Result-cases, ok, err}
use sulis.Exec.{◌>>=◌, ◌>>◌, >>=-eq-ok}
use sulis.Sqlite.{Db, any, outcome, in_transaction}
use sulis.Sqlite.Totp.{is_active}
use sulis.Service.Tokens.{wrapping}
use sulis.Totp.{Credential}
use sulis.Sqlite.Atomic.{outcome-tables, in_transaction-atomic}
use sulis.Sqlite.Totp.{TotpTables}
use sulis.Postgres.{Locked, Host, Pg, transaction, lock_user, affected, advisory_class_totp}
use sulis.Postgres.Totp.{
  get_active_totp, get_pending_totp, delete_totp, enroll_statement, enroll_pending, replace_pending,
  save_totp, confirm_enrollment, locked_exec, enrolling, replacing,
}
use sulis.Postgres.Equivalence.Totp.{
  Call, run_pg, gets_active, gets_pending, deletes, enrolls, replaces, saves, confirms,
}

module _ {T A : Type 0} (beginning committing : Text) (body : Pg T A) (db : Db (Locked T)) where
  -- A transaction that returns an error has changed no row, and holds the locks of before.
  transaction-atomic :
      (e : Error)
      → (transaction beginning committing body db).0 ≡ err e
      → (transaction beginning committing body db).1.tables ≡ db.tables
  unfolding transaction
  transaction-atomic e h = ground (arith, in_transaction-atomic beginning committing body db e)

  -- A transaction of a connection without locks leaves it without locks, however it ends.
  transaction-releases :
      db.tables.locks ≡ [] → (transaction beginning committing body db).1.tables.locks ≡ []
  unfolding transaction
  transaction-releases free = go _ refl
    where
      go :
          (r : Result A)
          → (in_transaction beginning committing body db).0 ≡ r
          → (transaction beginning committing body db).1.tables.locks ≡ []
      go (ok a) h = ground (arith, h)
      go (err e) h = ground (arith, h, in_transaction-atomic beginning committing body db e h)

-- What follows a transaction and does not return this error leaves the error to the transaction.
follow-atomic :
    {T : Type 0} (m : Pg T ℕ) (f : ℕ → Pg T Unit) (db : Db (Locked T)) (e : Error)
    → ((e : Error) → (m db).0 ≡ err e → (m db).1.tables ≡ db.tables)
    → ((n : ℕ) (w : Db (Locked T)) → (f n w).0 ≢ err e)
    → ((m >>= f) db).0 ≡ err e
    → ((m >>= f) db).1.tables ≡ db.tables
follow-atomic m f db e atomic never h = go _ refl
  where
    go : (r : Result ℕ) → (m db).0 ≡ r → ((m >>= f) db).1.tables ≡ db.tables
    go (ok n) same = absurd (never n (m db).1 (ground (arith, same, h)))
    go (err e') same = ground (arith, same, atomic e' same)

-- A transaction that returns a value leaves the rows that its body left, from the rows it began with.
transaction-body :
    {T A : Type 0} (beginning committing : Text) (body : Pg T A) (db : Db (Locked T)) (a : A)
    → (transaction beginning committing body db).0 ≡ ok a
    → (before : Db (Locked T)) × (before.tables ≡ db.tables)
      × ((body before).0 ≡ ok a)
      × ((body before).1.tables.rows ≡ (transaction beginning committing body db).1.tables.rows)
unfolding transaction in_transaction
transaction-body beginning committing body db a h =
    let before = (outcome db).1 in
    (
      before,
      outcome-tables db,
      ground (arith, h),
      ground (arith, h, outcome-tables (body before).1),
    )

-- the body of the transaction that enrolls
enroll_body : Host → Credential → Pg TotpTables ℕ
enroll_body host cred = do
  lock_user host advisory_class_totp cred.user_id
  changed ← wrapping enrolling.op (enroll_statement cred)
  affected changed enrolling.counting

lock_user-rows :
    {T : Type 0} (host : Host) (class user_id : ℕ) (db u : Db (Locked T))
    → lock_user host class user_id db ≡ (ok tt, u)
    → u.tables.rows ≡ db.tables.rows
unfolding lock_user
lock_user-rows host class user_id db u h = ground (arith, h, outcome-tables db)

affected-rows :
    {T : Type 0} (n m : ℕ) (reading : Text) (db u : Db (Locked T))
    → affected n reading db ≡ (ok m, u)
    → (n ≡ m) × (u.tables.rows ≡ db.tables.rows)
unfolding affected
affected-rows n m reading db u h = (ground (arith, h), ground (arith, h, outcome-tables db))

enroll_statement-nothing :
    (op : Text) (cred : Credential) (db u : Db (Locked TotpTables))
    → wrapping op (enroll_statement cred) db ≡ (ok 0, u)
    → u.tables.rows ≡ db.tables.rows
unfolding enroll_statement
enroll_statement-nothing op cred db u h =
    elim (Bool-cases (any (is_active cred.user_id) (outcome db).1.tables.rows.active)) [
      | inl active ↦ ground (arith, h, active, outcome-tables db)
      | inr absent ↦ absurd (ground (arith, h, absent))
    ]

-- One that has changed no row has left the rows as they were.
enroll_body-nothing :
    (host : Host) (cred : Credential) (db u : Db (Locked TotpTables))
    → enroll_body host cred db ≡ (ok 0, u)
    → u.tables.rows ≡ db.tables.rows
unfolding enroll_body
enroll_body-nothing host cred db u h =
    let (_, v, locking, h1) = >>=-eq-ok (lock_user host advisory_class_totp cred.user_id) _ db h in
    let (n, x, changing, counting) =
      >>=-eq-ok (wrapping enrolling.op (enroll_statement cred)) _ v h1 in
    let (none_changed, kept) = affected-rows n 0 enrolling.counting x u counting in
    let changed : wrapping enrolling.op (enroll_statement cred) v ≡ (ok 0, x) =
      subst (λ k. wrapping enrolling.op (enroll_statement cred) v ≡ (ok k, x)) none_changed
        changing in
    kept
    ∙ (enroll_statement-nothing enrolling.op cred v x changed
        ∙ lock_user-rows host advisory_class_totp cred.user_id db v locking)

-- ErrTOTPAlreadyEnrolled comes of a transaction that is committed, and leaves the rows as they were.
enrolled_already :
    (host : Host) (cred : Credential) (db : Db (Locked TotpTables))
    → (locked_exec host cred.user_id enrolling (enroll_statement cred) db).0 ≡ ok 0
    → (locked_exec host cred.user_id enrolling (enroll_statement cred) db).1.tables.rows
      ≡ db.tables.rows
unfolding locked_exec enroll_body
enrolled_already host cred db h =
    let (before, same, done, left) =
      transaction-body enrolling.op enrolling.committing (enroll_body host cred) db 0 h in
    sym left
    ∙ (enroll_body-nothing host cred before (enroll_body host cred before).1 (cc done)
        ∙ ap (λ (t : Locked TotpTables). t.rows) same)

-- neither a row nor a lock is different
abbrev pub IsUntouched :
    {A : Type 0} → Db (Locked TotpTables) → Result A × Db (Locked TotpTables) → Type 0
IsUntouched db (r, after) = after.tables ≡ db.tables

module _ (host : Host) (cred : Credential) (db : Db (Locked TotpTables)) where
  enroll_exec-atomic :
      (e : Error)
      → (locked_exec host cred.user_id enrolling (enroll_statement cred) db).0 ≡ err e
      → (locked_exec host cred.user_id enrolling (enroll_statement cred) db).1.tables ≡ db.tables
  unfolding locked_exec
  enroll_exec-atomic e h = transaction-atomic _ _ _ db e h

  enroll_exec-releases :
      db.tables.locks ≡ []
      → (locked_exec host cred.user_id enrolling (enroll_statement cred) db).1.tables.locks ≡ []
  unfolding locked_exec
  enroll_exec-releases free = transaction-releases _ _ _ db free

  enroll_pending-atomic :
      (e : Error)
      → db.tables.locks ≡ []
      → (enroll_pending host cred db).0 ≡ err e
      → IsUntouched db (enroll_pending host cred db)
  unfolding enroll_pending
  enroll_pending-atomic e free h =
      let m = locked_exec host cred.user_id enrolling (enroll_statement cred) in
      elim (Result-cases (m db).0) [
        | inr (f, failed) ↦ ground (arith, h, failed, enroll_exec-atomic f)
        | inl (n, fine) ↦
            let none_changed : n ≡ 0 = ground (arith, h, fine) in
            let kept = enrolled_already host cred db (fine ∙ ap ok none_changed) in
            ground (arith, h, fine, kept, enroll_exec-releases free, free)
      ]

-- A method of the PostgreSQL TOTP store that fails, on a connection that holds no advisory lock, has
-- changed no row and leaves the connection without one: whichever of its statements failed, and also
-- where the rows forbid what was asked, as ErrTOTPAlreadyEnrolled says after a commit.
pub totp_call-atomic :
    (host : Host) (call : Call) (db : Db (Locked TotpTables)) (e : Error)
    → db.tables.locks ≡ []
    → (run_pg host call db).0 ≡ err e
    → IsUntouched db (run_pg host call db)
unfolding get_active_totp get_pending_totp delete_totp replace_pending save_totp confirm_enrollment
    locked_exec
totp_call-atomic host (gets_active user_id) db e free h = ground (arith, outcome-tables db)
totp_call-atomic host (gets_pending user_id) db e free h = ground (arith, outcome-tables db)
totp_call-atomic host (deletes user_id) db e free h = transaction-atomic _ _ _ db e h
totp_call-atomic host (enrolls cred) db e free h = enroll_pending-atomic host cred db e free h
totp_call-atomic host (replaces cred) db e free h =
    follow-atomic (locked_exec host cred.user_id replacing _) _ db e
      (λ e. transaction-atomic _ _ _ db e) (λ n w at. cc) h
totp_call-atomic host (saves cred) db e free h = transaction-atomic _ _ _ db e h
totp_call-atomic host (confirms user_id pending_id counter) db e free h =
    transaction-atomic _ _ _ db e h
