-- ===== src/Sqlite/Totp/Refinement.antt =====
-- SaveTOTP of store/sql/sqlite/totp.go beside that of memstore/totp.go.
use native.Mathlib.Decide.{ℕ_discrete}
use sulis.Base.{
  ◌≡◌, refl, true, false, ◌&&◌, none, some, List, [], ◌∷◌, ◌==◌, ltb, arith, Option-cases,
  Bool-cases, inl, inr,
}
use sulis.Base.Map.{Map, lookup, insert, DistinctKeys}
use sulis.Error.{Result}
use sulis.Totp.{Credential}
use sulis.Memstore.Totp
use sulis.Memstore.Totp.{TotpSlots}
use sulis.Sqlite.{select_row, count_rows, update_rows, in_transaction, outcome, affected}
use sulis.Sqlite.Totp.{
  ActiveRow, PendingRow, TotpTables, save_totp, refused_save, is_behind, is_active,
  active_credential, pending_credential,
}

unfoldable pub keyed_active : List ActiveRow → Map Credential
keyed_active [] = []
keyed_active (row ∷ rows) = (row.user_id, active_credential row) ∷ keyed_active rows

unfoldable pub keyed_pending : List PendingRow → Map Credential
keyed_pending [] = []
keyed_pending (row ∷ rows) = (row.user_id, pending_credential row) ∷ keyed_pending rows

abbrev pub slots_of : TotpTables → TotpSlots
slots_of t = record { active = keyed_active t.active; pending = keyed_pending t.pending }

advanced : Credential → List ActiveRow → List ActiveRow
advanced cred rows =
    update_rows (is_behind cred) (λ row. record row { last_used_counter = cred.last_used_counter })
      rows

module _ (cred : Credential) where
  absent-rows :
      (rows : List ActiveRow)
      → lookup cred.user_id (keyed_active rows) ≡ none
      → (count_rows (is_behind cred) rows ≡ 0)
        × (advanced cred rows ≡ rows)
        × (select_row (is_active cred.user_id) rows ≡ none)
  unfolding keyed_active lookup count_rows update_rows select_row advanced
  absent-rows [] absent = (refl, refl, refl)
  absent-rows (row ∷ rows) absent = ground (arith, absent-rows rows)

  module _ (x : Credential) where
    selected-row :
        (rows : List ActiveRow)
        → lookup cred.user_id (keyed_active rows) ≡ some x
        → (r : ActiveRow) × (select_row (is_active cred.user_id) rows ≡ some r) × (r.id ≡ x.id)
    unfolding keyed_active lookup select_row
    selected-row [] there = cc
    selected-row (row ∷ rows) there = elim (ℕ_discrete row.user_id cred.user_id) [
      | yes own ↦ (row, ground arith, ground arith)
      | no other ↦
          let (r, chosen, same) = selected-row rows (ground arith) in
          (r, ground (arith, chosen), same)
    ]

    -- the row is another credential's, or its counter is not behind
    refused-rows :
        (rows : List ActiveRow)
        → DistinctKeys (keyed_active rows)
        → lookup cred.user_id (keyed_active rows) ≡ some x
        → (x.id == cred.id && ltb x.last_used_counter cred.last_used_counter) ≡ false
        → (count_rows (is_behind cred) rows ≡ 0) × (advanced cred rows ≡ rows)
    unfolding keyed_active lookup count_rows update_rows advanced
    refused-rows [] d there behind = cc
    refused-rows (row ∷ rows) d there behind =
        ground (arith, refused-rows rows d.1, absent-rows rows)

    saved-rows :
        (rows : List ActiveRow)
        → DistinctKeys (keyed_active rows)
        → lookup cred.user_id (keyed_active rows) ≡ some x
        → (x.id == cred.id && ltb x.last_used_counter cred.last_used_counter) ≡ true
        → (count_rows (is_behind cred) rows ≡ 1)
          × (keyed_active (advanced cred rows)
              ≡ insert cred.user_id
                  (record x { last_used_counter = cred.last_used_counter })
                  (keyed_active rows))
    unfolding keyed_active lookup count_rows update_rows insert advanced
    saved-rows [] d there behind = cc
    saved-rows (row ∷ rows) d there behind = ground (arith, saved-rows rows d.1, absent-rows rows)

-- On active rows of distinct users, and as long as the driver reports no failure, SaveTOTP of the SQLite
-- store returns what that of the in-memory store returns, and leaves the credentials that it leaves.
pub save_totp-refines :
    (cred : Credential) (tables : TotpTables)
    → DistinctKeys (keyed_active tables.active)
    → let (r, after) = save_totp cred (record { tables = tables; outcomes = [] }) in
      ◌≡◌ {A = Result Unit × TotpSlots}
        (r, slots_of after.tables)
        (Totp.save_totp cred (slots_of tables))
unfolding save_totp refused_save in_transaction outcome affected Totp.save_totp advanced
save_totp-refines cred tables d =
    elim (Option-cases (lookup cred.user_id (keyed_active tables.active))) [
      | inl absent ↦ ground (arith, absent, absent-rows cred tables.active absent)
      | inr (x, there) ↦
          elim (Bool-cases (x.id == cred.id && ltb x.last_used_counter cred.last_used_counter)) [
            | inl behind ↦
                ground (arith, there, behind, saved-rows cred x tables.active d there behind)
            | inr refused ↦
                let (r, chosen, same) = selected-row cred x tables.active there in
                ground (
                  arith,
                  there,
                  refused,
                  refused-rows cred x tables.active d there refused,
                  chosen,
                  same,
                )
          ]
    ]
