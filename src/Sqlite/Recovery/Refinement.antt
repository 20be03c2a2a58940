-- ===== src/Sqlite/Recovery/Refinement.antt =====
-- ConsumeCode of store/sql/sqlite/recovery.go beside that of memstore/recovery.go.
use sulis.Base.{
  ℕ, ◌≡◌, ◌≢◌, refl, not, some, List, [], ◌∷◌, ◌==◌, arith, if◌then◌else◌, length, Bool-cases, inl,
  inr,
}
use sulis.Base.Text.{Text}
use sulis.Base.Map.{Map, lookup, lookup-insert}
use sulis.Memstore.Recovery
use sulis.Memstore.Recovery.{is_in, without}
use sulis.Sqlite.{count_rows, delete_rows, in_transaction, outcome, affected}
use sulis.Sqlite.Recovery.{CodeRow, consume_code, owned_by, is_code}

-- the hashes of a user
unfoldable pub codes_of : ℕ → List CodeRow → List Text
codes_of user_id [] = []
codes_of user_id (row ∷ rows) =
    let rest = codes_of user_id rows in
    if row.user_id == user_id then row.code_hash ∷ rest else rest

count-codes_of :
    (user_id : ℕ) (rows : List CodeRow)
    → count_rows (owned_by user_id) rows ≡ length (codes_of user_id rows)
unfolding count_rows codes_of
count-codes_of user_id [] = refl
count-codes_of user_id (row ∷ rows) = ground (arith, count-codes_of user_id rows)

module _ (user_id : ℕ) (hash : Text) where
  codes_of-deleted :
      (rows : List CodeRow)
      → codes_of user_id (delete_rows (is_code user_id hash) rows)
        ≡ without hash (codes_of user_id rows)
  unfolding codes_of delete_rows without
  codes_of-deleted [] = refl
  codes_of-deleted (row ∷ rows) = ground (arith, codes_of-deleted rows)

  codes_of-others :
      (other : ℕ) (rows : List CodeRow)
      → other ≢ user_id
      → codes_of other (delete_rows (is_code user_id hash) rows) ≡ codes_of other rows
  unfolding codes_of delete_rows
  codes_of-others other [] h = refl
  codes_of-others other (row ∷ rows) h = ground (arith, codes_of-others other rows h)

  is_in-count :
      (rows : List CodeRow)
      → (count_rows (is_code user_id hash) rows == 0) ≡ not (is_in hash (codes_of user_id rows))
  unfolding count_rows codes_of is_in
  is_in-count [] = refl
  is_in-count (row ∷ rows) = ground (arith, is_in-count rows)

  -- As long as the driver reports no failure, ConsumeCode of the SQLite store returns what that of an
  -- in-memory store with the same codes of the user returns. The user's codes are the same after it,
  -- and those of every other user are as before.
  pub consume_code-refines :
      (rows : List CodeRow) (users : Map (List Text))
      → lookup user_id users ≡ some (codes_of user_id rows)
      → let run = consume_code user_id hash (record { tables = rows; outcomes = [] }) in
        let mem = Recovery.consume_code user_id hash users in
        (run.0 ≡ mem.0)
        × (lookup user_id mem.1 ≡ some (codes_of user_id run.1.tables))
        × ((other : ℕ) → other ≢ user_id → codes_of other run.1.tables ≡ codes_of other rows)
  unfolding consume_code in_transaction outcome affected Recovery.consume_code
  consume_code-refines rows users same =
      let counted = is_in-count rows in
      elim (Bool-cases (is_in hash (codes_of user_id rows))) [
        | inl there ↦ (
          ground (
            arith,
            same,
            there,
            counted,
            codes_of-deleted rows,
            count-codes_of user_id (delete_rows (is_code user_id hash) rows),
          ),
          ground (
            arith,
            same,
            there,
            counted,
            codes_of-deleted rows,
            lookup-insert user_id user_id (without hash (codes_of user_id rows)) users,
          ),
          λ other differs. ground (arith, there, counted, codes_of-others other rows differs),
        )
        | inr absent ↦ (
          ground (arith, same, absent, counted),
          ground (arith, same, absent, counted),
          λ other differs. ground (arith, absent, counted),
        )
      ]
