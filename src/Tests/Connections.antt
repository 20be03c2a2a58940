-- ===== src/Tests/Connections.antt =====
-- Examples for the PostgreSQL stores, of one connection and of two.
use native.Mathlib.Decide.{ℕ_discrete}
use sulis.Base.{ℕ, ◌<◌, ◌≡◌, ◌≢◌, refl, false, List, [], ◌∷◌, some, none, arith, length}
use sulis.Base.Text.{codes, to_lower}
use sulis.Error.{Result, foreign, wrapped}
use sulis.Model.{User}
use sulis.Passkey.{PasskeyCredential}
use sulis.Sqlite
use sulis.Sqlite.{Db}
use sulis.Sqlite.Totp.{TotpTables}
use sulis.Postgres
use sulis.Postgres.{ℤ, Host, Locked}
use sulis.Postgres.Equivalence.{seen_sql, seen_pg}
use sulis.Postgres.Equivalence.Users.{updates}
use sulis.Postgres.Equivalence.Totp as PgTotpCalls
use sulis.Postgres.Agreement.{users, call_pg, call_sql, store_calls-agree}
use sulis.Postgres.Locks.{totp_call-atomic}
use sulis.Postgres.Totp as PgTotp
use sulis.Postgres.Passkeys.{delete_statement}
use sulis.Postgres.Concurrent.{
  Phase, resting, begun, locked, deleted, System, begins, locks, deletes, commits, moved, Reach,
  start, later, holds, key_of, removed_by,
}
use sulis.Postgres.Concurrent.Rows.{IsUnique, count_of}
use sulis.Postgres.Concurrent.Guard.{reach-keeps_one}
use sulis.Postgres.Concurrent.Progress.{Steps, waiting_gets_lock}
use sulis.Tests.{ann}
use sulis.Tests.Passkeys.{phone}
use sulis.Tests.Sql.{renamed, totp_tables, used_totp}

abbrev host : Host
host = record { lower = to_lower; id_text = λ id. id ∷ []; sum32 = length }

store_calls-agree_example :
    ◌≡◌ {A = Result Unit × List User}
      (seen_pg (call_pg host (users (updates renamed))) (ann ∷ []))
      (seen_sql (call_sql (users (updates renamed))) (ann ∷ []))
store_calls-agree_example =
    store_calls-agree host (users (updates renamed)) (ann ∷ []) (refl, (refl, tt))

-- the statement of SaveTOTP fails
abbrev failing : Db (Locked TotpTables)
failing = record {
  tables = record { rows = totp_tables; locks = [] };
  outcomes = none ∷ none ∷ some (foreign 57014) ∷ [];
}

totp_call-atomic_example : (PgTotp.save_totp host used_totp failing).1.tables ≡ failing.tables
unfolding PgTotp.save_totp Postgres.transaction Postgres.lock_user Sqlite.in_transaction
    Sqlite.outcome
totp_call-atomic_example =
    totp_call-atomic host (PgTotpCalls.saves used_totp) failing
      (wrapped (codes "sulis/postgres: saving a TOTP credential") (foreign 57014)) refl refl

abbrev tablet : PasskeyCredential
tablet = record phone { id = 71; credential_id = codes "other" }

abbrev two_passkeys : List PasskeyCredential
two_passkeys = phone ∷ tablet ∷ []

both-IsUnique : IsUnique two_passkeys
unfolding IsUnique Sqlite.any
both-IsUnique = (refl, (refl, tt))

-- two connections have begun to delete a passkey each, and the first has the lock
abbrev phases : ℕ → Phase
phases =
    moved (moved (moved (λ i. resting) 0 (begun 7 70 false)) 1 (begun 7 71 false)) 0
      (locked 7 70 false)

abbrev contended : System
contended = record { rows = two_passkeys; phase = phases }

free :
    (j : ℕ)
    → holds host (moved (moved (λ i. resting) 0 (begun 7 70 false)) 1 (begun 7 71 false) j)
      ≢ some (key_of host 7)
free j = elim (ℕ_discrete j 0) [
  | yes e ↦ ground (arith, e)
  | no n ↦ elim (ℕ_discrete j 1) [ yes e ↦ ground (arith, e) | no m ↦ ground (arith, n, m) ]
]

reach_contended : Reach host 7 two_passkeys contended
reach_contended =
    later
      (later (later start (begins 0 7 70 false refl (λ e. refl)))
        (begins 1 7 71 false refl (λ e. refl)))
      (locks 0 7 70 false refl free)

-- the first connection has deleted its passkey
abbrev after_delete : System
after_delete = record contended { phase = moved phases 0 (deleted 7 70 false 1) }

removes_one : removed_by 7 70 false two_passkeys ≡ 1
unfolding delete_statement Sqlite.outcome Sqlite.count_rows
removes_one = refl

waiting_gets_lock_example :
    (t : System) × Steps host 7 contended t × (t.phase 1 ≡ locked 7 71 false)
waiting_gets_lock_example =
    waiting_gets_lock host 7 two_passkeys contended 1 7 71 false reach_contended refl

-- and has committed
abbrev committed : System
committed = record {
  rows = Sqlite.delete_rows (Sqlite.Passkeys.is_owned 7 70) two_passkeys;
  phase =
      moved (moved phases 0 (deleted 7 70 false (removed_by 7 70 false two_passkeys))) 0 resting;
}

reach-keeps_one_example : 0 < count_of 7 committed.rows
unfolding Sqlite.count_rows
reach-keeps_one_example =
    reach-keeps_one host 7 two_passkeys committed both-IsUnique (omega arith) (
      later (later reach_contended (deletes 0 7 70 false refl))
        (commits 0 7 70 false _ refl (ground (arith, removes_one))))
