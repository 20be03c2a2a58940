-- ===== src/Sqlite/Passkeys/Refinement.antt =====
-- DeleteCredential of store/sql/sqlite/passkey.go beside that of memstore/passkey.go, and the
-- challenges of the SQLite store.
use native.Mathlib.Decide.{ℕ_discrete}
use sulis.Base.{
  ℕ, ◌+◌, ◌≡◌, ◌≢◌, refl, Bool, true, false, ◌&&◌, not, none, some, List, [], ◌∷◌, ◌++◌, ltb, leb,
  arith, if◌then◌else◌, Option-cases, Bool-cases, inl, inr,
}
use sulis.Base.Text.{Text, text_eq_refl}
use sulis.Base.Map.{Map, lookup, delete, DistinctKeys}
use sulis.Error.{Result, ok, err, sentinel, challenge_not_found}
use sulis.Passkey.{PasskeyCredential}
use sulis.Memstore.Passkeys
use sulis.Memstore.Passkeys.{count_by_user}
use sulis.Sqlite.{
  any, select_row, count_rows, update_rows, delete_rows, in_transaction, outcome, affected,
}
use sulis.Sqlite.Passkeys.{
  delete_credential, refused_delete, deletable, may_delete, is_owned, owned_by, Challenge,
  save_challenge, consume_challenge, consume_statement, upsert_challenge, has_key, ttl,
}

unfoldable pub keyed : List PasskeyCredential → Map PasskeyCredential
keyed [] = []
keyed (row ∷ rows) = (row.id, row) ∷ keyed rows

count-keyed :
    (user_id : ℕ) (rows : List PasskeyCredential)
    → count_rows (owned_by user_id) rows ≡ count_by_user user_id (keyed rows)
unfolding count_rows keyed count_by_user
count-keyed user_id [] = refl
count-keyed user_id (row ∷ rows) = ground (arith, count-keyed user_id rows)

module _ (user_id id : ℕ) (allowed : Bool) where
  absent-rows :
      (rows : List PasskeyCredential)
      → lookup id (keyed rows) ≡ none
      → (count_rows (deletable user_id id allowed) rows ≡ 0)
        × (delete_rows (deletable user_id id allowed) rows ≡ rows)
        × (any (is_owned user_id id) rows ≡ false)
        × (delete id (keyed rows) ≡ keyed rows)
  unfolding keyed lookup count_rows delete_rows delete any
  absent-rows [] absent = (refl, refl, refl, refl)
  absent-rows (row ∷ rows) absent = ground (arith, absent-rows rows)

  refused-rows :
      (rows : List PasskeyCredential)
      → allowed ≡ false
      → delete_rows (deletable user_id id allowed) rows ≡ rows
  unfolding delete_rows
  refused-rows [] h = refl
  refused-rows (row ∷ rows) h = ground (arith, refused-rows rows h)

  module _ (x : PasskeyCredential) where
    owned-rows :
        (rows : List PasskeyCredential)
        → DistinctKeys (keyed rows)
        → lookup id (keyed rows) ≡ some x
        → x.user_id ≡ user_id
        → (count_rows (deletable user_id id allowed) rows ≡ (if allowed then 1 else 0))
          × (keyed (delete_rows (deletable user_id id allowed) rows)
              ≡ (if allowed then delete id (keyed rows) else keyed rows))
          × (any (is_owned user_id id) rows ≡ true)
    unfolding keyed lookup count_rows delete_rows delete any
    owned-rows [] d there own = cc
    owned-rows (row ∷ rows) d there own =
        ground (arith, owned-rows rows d.1, absent-rows rows, Bool-cases allowed)

    foreign-rows :
        (rows : List PasskeyCredential)
        → DistinctKeys (keyed rows)
        → lookup id (keyed rows) ≡ some x
        → x.user_id ≢ user_id
        → (count_rows (deletable user_id id allowed) rows ≡ 0)
          × (delete_rows (deletable user_id id allowed) rows ≡ rows)
          × (any (is_owned user_id id) rows ≡ false)
    unfolding keyed lookup count_rows delete_rows any
    foreign-rows [] d there other = cc
    foreign-rows (row ∷ rows) d there other =
        ground (arith, foreign-rows rows d.1, absent-rows rows)

-- The guard of the in-memory store is the negated condition of the statement.
may_delete-guard :
    (user_id : ℕ) (allow_last : Bool) (rows : List PasskeyCredential)
    → (not allow_last && leb (count_by_user user_id (keyed rows)) 1)
      ≡ not (may_delete user_id allow_last rows)
may_delete-guard user_id allow_last rows = ground (arith, count-keyed user_id rows)

-- On rows with distinct ids, and as long as the driver reports no failure, DeleteCredential of the SQLite
-- store returns what that of the in-memory store returns, and leaves the rows that it leaves.
pub delete_credential-refines :
    (user_id id : ℕ) (allow_last : Bool) (rows : List PasskeyCredential)
    → DistinctKeys (keyed rows)
    → let (r, after) =
        delete_credential user_id id allow_last (record { tables = rows; outcomes = [] }) in
      ◌≡◌ {A = Result Unit × Map PasskeyCredential}
        (r, keyed after.tables)
        (Passkeys.delete_credential user_id id allow_last (keyed rows))
unfolding delete_credential refused_delete in_transaction outcome affected
    Passkeys.delete_credential
delete_credential-refines user_id id allow_last rows d =
    let allowed = may_delete user_id allow_last rows in
    elim (Option-cases (lookup id (keyed rows))) [
      | inl absent ↦ ground (arith, absent, absent-rows user_id id allowed rows absent)
      | inr (x, there) ↦ elim (ℕ_discrete x.user_id user_id) [
        | yes own ↦ elim (Bool-cases allowed) [
          | inl may ↦
              let facts = owned-rows user_id id allowed x rows d there own in
              ground (arith, there, own, may, facts, may_delete-guard user_id allow_last rows)
          | inr may_not ↦
              let facts = owned-rows user_id id allowed x rows d there own in
              ground (
                arith,
                there,
                own,
                may_not,
                facts,
                refused-rows user_id id allowed rows may_not,
                may_delete-guard user_id allow_last rows,
              )
        ]
        | no other ↦ ground (arith, there, foreign-rows user_id id allowed x rows d there other)
      ]
    ]

replaced :
    (challenge : Challenge) (rows : List Challenge)
    → any (has_key challenge.challenge_key) rows ≡ true
    → select_row
        (has_key challenge.challenge_key)
        (update_rows (has_key challenge.challenge_key) (λ row. challenge) rows)
      ≡ some challenge
unfolding any select_row update_rows
replaced challenge [] h = cc
replaced challenge (row ∷ rows) h =
    ground (arith, replaced challenge rows, text_eq_refl challenge.challenge_key)

appended :
    (challenge : Challenge) (rows : List Challenge)
    → any (has_key challenge.challenge_key) rows ≡ false
    → select_row (has_key challenge.challenge_key) (rows ++ (challenge ∷ [])) ≡ some challenge
unfolding any select_row
appended challenge [] h = ground (arith, text_eq_refl challenge.challenge_key)
appended challenge (row ∷ rows) h = ground (arith, appended challenge rows)

select-upsert :
    (challenge : Challenge) (rows : List Challenge)
    → select_row (has_key challenge.challenge_key) (upsert_challenge challenge rows)
      ≡ some challenge
unfolding upsert_challenge
select-upsert challenge rows = elim (Bool-cases (any (has_key challenge.challenge_key) rows)) [
  | inl there ↦ ground (arith, there, replaced challenge rows there)
  | inr absent ↦ ground (arith, absent, appended challenge rows absent)
]

select-deleted :
    (key : Text) (rows : List Challenge)
    → select_row (has_key key) (delete_rows (has_key key) rows) ≡ none
unfolding select_row delete_rows
select-deleted key [] = refl
select-deleted key (row ∷ rows) = ground (arith, select-deleted key rows)

-- As long as the driver reports no failure, a challenge that was saved is given out once, before its
-- lifetime is over, and not at all after that: it is gone whether or not it was given out.
pub consume_challenge_in_time :
    (configured saved t u : ℕ) (key session_data : Text) (rows : List Challenge)
    → let stored =
        (save_challenge configured saved key session_data
          (record { tables = rows; outcomes = [] })).1 in
      ((consume_challenge t key stored).0 ≡ (
        if ltb t (saved + ttl configured)
        then ok session_data
        else err (sentinel challenge_not_found)))
      × ((consume_challenge u key (consume_challenge t key stored).1).0
          ≡ err (sentinel challenge_not_found))
unfolding save_challenge consume_challenge consume_statement outcome
consume_challenge_in_time configured saved t u key session_data rows =
    let challenge : Challenge = record {
      challenge_key = key;
      session_data = session_data;
      created_at = saved;
      expires_at = saved + ttl configured;
    } in
    let here = select-upsert challenge rows in
    (
      ground (arith, here),
      ground (arith, here, select-deleted key (upsert_challenge challenge rows)),
    )
