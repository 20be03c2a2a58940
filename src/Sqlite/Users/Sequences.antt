-- ===== src/Sqlite/Users/Sequences.antt =====
-- Any sequence of writes of store/sql/sqlite/user.go beside the same one of memstore/user.go.
use sulis.Base.{
  ℕ, ◌≡◌, refl, sym, subst, ap, ◌∙◌, Bool, true, false, ◌&&◌, ◌||◌, List, [], ◌∷◌, ◌++◌, ◌==◌,
  arith, All, All-append, if◌then◌else◌,
}
use sulis.Base.Map.{Map}
use sulis.Error.{Result}
use sulis.Model.{User}
use sulis.Memstore.Users.Validity.{Write, run, creates, updates, deletes, IsValid, run-IsValid}
use sulis.Sqlite.{
  Db, any, count_rows, update_rows, delete_rows, affected, in_transaction, outcome,
  is_unique_violation,
}
use sulis.Sqlite.Users.{
  create_user, update_user, delete_user, bars_insert, bars_update, has_id, has_id_and_version,
  set_columns, update_statement, refused_update,
}
use sulis.Sqlite.Users.Refinement.{keyed, run_sql, IsCanonical, IsServiceWrite, run_sql-refines}

abbrev pub calm : List User → Db (List User)
calm rows = record { tables = rows; outcomes = [] }

branch :
    (test : Bool) (s t : List User)
    → All IsCanonical s
    → All IsCanonical t
    → All IsCanonical (if test then s else t)
branch true s t cs ct = cs
branch false s t cs ct = ct

update_rows-IsCanonical :
    (u : User) (rows : List User)
    → IsCanonical u
    → All IsCanonical rows
    → All IsCanonical (update_rows (has_id_and_version u) (set_columns u) rows)
unfolding update_rows
update_rows-IsCanonical u [] c cs = tt
update_rows-IsCanonical u (row ∷ rows) c (cr, cs) =
    let rest = update_rows-IsCanonical u rows c cs in
    branch (has_id_and_version u row) _ _ (c, rest) (cr, rest)

delete_rows-IsCanonical :
    (id : ℕ) (rows : List User)
    → All IsCanonical rows
    → All IsCanonical (delete_rows (has_id id) rows)
unfolding delete_rows
delete_rows-IsCanonical id [] cs = tt
delete_rows-IsCanonical id (row ∷ rows) (cr, cs) =
    let rest = delete_rows-IsCanonical id rows cs in branch (has_id id row) _ _ rest (cr, rest)

created-rows :
    (u : User) (rows : List User)
    → create_user u (calm rows) ≡ (
      (create_user u (calm rows)).0,
      calm (if any (bars_insert u) rows then rows else rows ++ (record u { version = 0 } ∷ [])),
    )
unfolding create_user outcome is_unique_violation
created-rows u rows = ground arith

updated-rows :
    (u : User) (rows : List User)
    → update_user u (calm rows) ≡ (
      (update_user u (calm rows)).0,
      calm (
          if (any (has_id_and_version u) rows && any (bars_update u) rows)
            || count_rows (has_id_and_version u) rows == 0
          then rows
          else update_rows (has_id_and_version u) (set_columns u) rows),
    )
unfolding update_user update_statement refused_update affected in_transaction outcome
    is_unique_violation
updated-rows u rows = ground arith

-- A write leaves canonical addresses.
written :
    (write : Write) (rows : List User)
    → IsServiceWrite write
    → All IsCanonical rows
    → (after : List User) × ((run_sql write (calm rows)).1 ≡ calm after) × All IsCanonical after
unfolding delete_user outcome
written (creates u) rows (c, fresh) cs = (
  _,
  ap (λ r. r.1) (created-rows u rows),
  branch (any (bars_insert u) rows) rows _ cs (All-append IsCanonical rows _ cs (c, tt)),
)
written (updates u) rows c cs = (
  _,
  ap (λ r. r.1) (updated-rows u rows),
  branch _ rows _ cs (update_rows-IsCanonical u rows c cs),
)
written (deletes id) rows w cs =
    (delete_rows (has_id id) rows, refl, delete_rows-IsCanonical id rows cs)

-- the writes one after the other, with what each returns
unfoldable pub run_all_sql : List Write → Db (List User) → List (Result (Unit {0})) × Db (List User)
run_all_sql [] db = ([], db)
run_all_sql (write ∷ writes) db =
    let (r, next) = run_sql write db in let (rs, last) = run_all_sql writes next in (r ∷ rs, last)

unfoldable pub run_all : List Write → Map User → List (Result (Unit {0})) × Map User
run_all [] users = ([], users)
run_all (write ∷ writes) users =
    let (r, next) = run write users in let (rs, last) = run_all writes next in (r ∷ rs, last)

-- From rows that are well formed and have canonical addresses, and as long as the driver reports no
-- failure, any sequence of writes with canonical addresses, and the version 0 for new rows, returns the
-- same results over the SQLite user store and over the in-memory one, and leaves the same rows.
pub run_all_sql-refines :
    (writes : List Write) (rows : List User)
    → IsValid (keyed rows)
    → All IsCanonical rows
    → All IsServiceWrite writes
    → ((run_all_sql writes (calm rows)).0 ≡ (run_all writes (keyed rows)).0)
      × (keyed (run_all_sql writes (calm rows)).1.tables ≡ (run_all writes (keyed rows)).1)
unfolding run_all_sql run_all
run_all_sql-refines [] rows valid cs ws = (refl, refl)
run_all_sql-refines (write ∷ writes) rows valid cs (w, ws) =
    let (after, same, canonical) = written write rows w cs in
    let step = run_sql-refines write rows valid.distinct cs w in
    let mapped : keyed after ≡ (run write (keyed rows)).1 =
      ap (λ db. keyed db.tables) (sym same) ∙ ap (λ r. r.1) step in
    let (results, left) =
      run_all_sql-refines writes after
        (subst IsValid (sym mapped) (run-IsValid write (keyed rows) valid)) canonical ws in
    (
      λ i.
          ap (λ r. r.0) step i
          ∷ (ap (λ db. (run_all_sql writes db).0) same
                ∙ (results ∙ ap (λ users. (run_all writes users).0) mapped))
              i,
      ap (λ db. keyed (run_all_sql writes db).1.tables) same
          ∙ (left ∙ ap (λ users. (run_all writes users).1) mapped),
    )
