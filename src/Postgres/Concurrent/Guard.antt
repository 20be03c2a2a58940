-- ===== src/Postgres/Concurrent/Guard.antt =====
-- The last credential of a user, whatever the connections of Postgres.Concurrent do.
use native.Mathlib.Decide.{ℕ_discrete}
use sulis.Base.{ℕ, ◌≤◌, ◌<◌, ◌≡◌, ◌≢◌, subst, ap, ◌∙◌, Bool, false, some, List, arith}
use sulis.Passkey.{PasskeyCredential}
use sulis.Sqlite.{delete_rows}
use sulis.Sqlite.Passkeys.{is_owned}
use sulis.Postgres.{Host}
use sulis.Postgres.Concurrent.{
  Phase, resting, begun, locked, deleted, System, holds, moved, Step, begins, locks, deletes,
  commits, rolls_back, saves, renames, logs_in, Reach, start, later, key_of,
}
use sulis.Postgres.Concurrent.Exclusion.{IsExclusive, reach-IsExclusive}
use sulis.Postgres.Concurrent.Rows.{
  IsUnique, count_of, Keeps, delete_rows-IsUnique, count-delete_rows, count-delete_rows_other,
  removed_by-guarded, save_credential-Keeps, rename_credential-Keeps, login-Keeps,
}

module _ (kept_user : ℕ) where
  -- A call for the user does not allow the last credential to go, and while its DELETE waits for the
  -- commit, the user has one more credential than that.
  abbrev pub IsFine : List PasskeyCredential → Phase → Type 0
  IsFine rows resting = Unit
  IsFine rows (begun user_id id allow_last) = user_id ≡ kept_user → allow_last ≡ false
  IsFine rows (locked user_id id allow_last) = user_id ≡ kept_user → allow_last ≡ false
  IsFine rows (deleted user_id id allow_last changed) =
      user_id ≡ kept_user → changed ≢ 0 → 1 < count_of kept_user rows

  IsFine-more :
      (rows after : List PasskeyCredential) (p : Phase)
      → count_of kept_user rows ≤ count_of kept_user after
      → IsFine rows p
      → IsFine after p
  IsFine-more rows after resting more fine = tt
  IsFine-more rows after (begun user_id id allow_last) more fine = fine
  IsFine-more rows after (locked user_id id allow_last) more fine = fine
  IsFine-more rows after (deleted user_id id allow_last changed) more fine =
      λ own some_row. ground (arith, fine own some_row)

  -- a connection without the lock of the user
  IsFine-apart :
      (host : Host) (rows after : List PasskeyCredential) (p : Phase)
      → holds host p ≢ some (key_of host kept_user)
      → IsFine rows p
      → IsFine after p
  IsFine-apart host rows after resting apart fine = tt
  IsFine-apart host rows after (begun user_id id allow_last) apart fine = fine
  IsFine-apart host rows after (locked user_id id allow_last) apart fine = fine
  IsFine-apart host rows after (deleted user_id id allow_last changed) apart fine =
      λ own some_row. absurd (apart (ap (λ u. some (key_of host u)) own))

  moved-IsFine :
      (rows : List PasskeyCredential) (phase : ℕ → Phase) (i : ℕ) (p : Phase)
      → IsFine rows p
      → ((j : ℕ) → j ≢ i → IsFine rows (phase j))
      → (j : ℕ) → IsFine rows (moved phase i p j)
  moved-IsFine rows phase i p here others j = elim (ℕ_discrete j i) [
    | yes e ↦ subst (IsFine rows) {x = p} {y = moved phase i p j} (ground (arith, e)) here
    | no n ↦
        subst (IsFine rows) {x = phase j} {y = moved phase i p j} (ground (arith, n)) (others j n)
  ]

  pub record Inv (s : System) : Type 0 where
    pub unique : IsUnique s.rows
    pub kept : 0 < count_of kept_user s.rows
    pub fine : (i : ℕ) → IsFine s.rows (s.phase i)

  Keeps-Inv :
      (s : System) (after : List PasskeyCredential)
      → Inv s
      → Keeps kept_user s.rows after
      → Inv (record s { rows = after })
  Keeps-Inv s after inv (unique, more) = record {
    unique = unique;
    kept = ground (arith, inv.kept);
    fine = λ i. IsFine-more s.rows after (s.phase i) more (inv.fine i);
  }

  moved-Inv :
      (s : System) (i : ℕ) (p : Phase)
      → Inv s
      → IsFine s.rows p
      → Inv (record s { phase = moved s.phase i p })
  moved-Inv s i p inv here = record {
    unique = inv.unique;
    kept = inv.kept;
    fine = moved-IsFine s.rows s.phase i p here (λ j n. inv.fine j);
  }

  commit-Inv :
      (host : Host) (s : System) (i user_id id : ℕ) (allow_last : Bool) (changed : ℕ)
      → IsExclusive host s.phase
      → Inv s
      → s.phase i ≡ deleted user_id id allow_last changed
      → changed ≢ 0
      → Inv (record {
        rows = delete_rows (is_owned user_id id) s.rows;
        phase = moved s.phase i resting;
      })
  commit-Inv host s i user_id id allow_last changed exclusive inv at some_row =
      let after = delete_rows (is_owned user_id id) s.rows in
      elim (ℕ_discrete user_id kept_user) [
        | yes own ↦
            let more = subst (IsFine s.rows) at (inv.fine i) own some_row in
            record {
              unique = delete_rows-IsUnique (is_owned user_id id) s.rows inv.unique;
              kept = ground (arith, own, more, count-delete_rows user_id id s.rows inv.unique);
              fine = moved-IsFine after s.phase i resting tt (λ j n.
                  IsFine-apart host s.rows after (s.phase j)
                    (λ h. n (
                      exclusive j i (key_of host kept_user) h
                        (ap (holds host) at ∙ ap (λ u. some (key_of host u)) own)))
                    (inv.fine j));
            }
        | no other ↦
            let same = count-delete_rows_other kept_user user_id id s.rows other in
            record {
              unique = delete_rows-IsUnique (is_owned user_id id) s.rows inv.unique;
              kept = ground (arith, same, inv.kept);
              fine =
                  moved-IsFine after s.phase i resting tt (λ j n.
                    IsFine-more s.rows after (s.phase j) (ground (arith, same)) (inv.fine j));
            }
      ]

  step-Inv :
      (host : Host) (s t : System)
      → Step host kept_user s t
      → IsExclusive host s.phase
      → Inv s
      → Inv t
  step-Inv host s _ (begins i user_id id allow_last at guarded) exclusive inv =
      moved-Inv s i _ inv guarded
  step-Inv host s _ (locks i user_id id allow_last at free) exclusive inv =
      moved-Inv s i _ inv (subst (IsFine s.rows) at (inv.fine i))
  step-Inv host s _ (deletes i user_id id allow_last at) exclusive inv =
      let guarded = subst (IsFine s.rows) at (inv.fine i) in
      moved-Inv s i _ inv (λ own some_row.
        ground (arith, own, guarded own, some_row, removed_by-guarded user_id id s.rows))
  step-Inv host s _ (commits i user_id id allow_last changed at some_row) exclusive inv =
      commit-Inv host s i user_id id allow_last changed exclusive inv at some_row
  step-Inv host s _ (rolls_back i) exclusive inv = moved-Inv s i resting inv tt
  step-Inv host s _ (saves cred new) exclusive inv =
      Keeps-Inv s _ inv (save_credential-Keeps kept_user cred s.rows inv.unique new)
  step-Inv host s _ (renames user_id id name) exclusive inv =
      Keeps-Inv s _ inv (rename_credential-Keeps kept_user user_id id name s.rows inv.unique)
  step-Inv host s _ (logs_in credential_id sign_count backup_state at) exclusive inv =
      Keeps-Inv s _ inv
        (login-Keeps kept_user credential_id sign_count backup_state at s.rows inv.unique)

-- However deletions of one credential on many connections are interleaved with each other and with
-- saves, renames and logins, a user who has a credential keeps one, as long as no deletion for this user
-- allows the last one to go: rows with distinct ids to begin with, and a saved credential with an id of
-- its own. The deletion of all credentials of a user is not among the calls.
pub reach-keeps_one :
    (host : Host) (kept_user : ℕ) (rows : List PasskeyCredential) (s : System)
    → IsUnique rows
    → 0 < count_of kept_user rows
    → Reach host kept_user rows s
    → 0 < count_of kept_user s.rows
reach-keeps_one host kept_user rows s unique kept reach = (reach-Inv s reach).kept
  where
    reach-Inv : (s : System) → Reach host kept_user rows s → Inv kept_user s
    reach-Inv _ start = record { unique = unique; kept = kept; fine = λ i. tt }
    reach-Inv _ (later {s} {t} reach step) =
        step-Inv kept_user host s t step (reach-IsExclusive host kept_user rows s reach)
          (reach-Inv s reach)
