-- ===== src/Sqlite/Tokens/Refinement.antt =====
-- ConsumeToken and the deletions of store/sql/sqlite/token.go beside those of memstore/token.go.
use native.Mathlib.Decide.{ℕ_discrete}
use sulis.Base.{
  ℕ, ◌≡◌, ◌≢◌, refl, Bool, true, false, ◌&&◌, not, none, some, List, [], ◌∷◌, ◌==◌, arith,
  Option-cases, Bool-cases, inl, inr,
}
use sulis.Base.Text.{Text, text_eq, text_eq_iff, text_eq_refl}
use sulis.Base.Map.{Map, insert, find, remove_if}
use sulis.Error.{Result}
use sulis.Model.{Token, TokenPurpose, nil_id}
use sulis.Memstore.Tokens
use sulis.Sqlite.{Db, any, select_row, update_rows, delete_rows, in_transaction, outcome}
use sulis.Sqlite.Tokens.{
  consume_token, delete_expired_tokens, delete_user_tokens, bars_insert, matches, matches_unused,
  consume_statement, refused_consume, use_token, is_expired, issued_to,
}

unfoldable pub keyed : List Token → Map Token
keyed [] = []
keyed (t ∷ tokens) = (t.id, t) ∷ keyed tokens

-- no two rows have one id, and no two have one hash
unfoldable pub IsUnique : List Token → Type 0
IsUnique [] = Unit
IsUnique (t ∷ tokens) = (any (bars_insert t) tokens ≡ false) × IsUnique tokens

-- as long as the driver reports no failure
abbrev pub calm : List Token → Db (List Token)
calm rows = record { tables = rows; outcomes = [] }

module _ (hash : Text) (purpose : TokenPurpose) where
  no-match :
      (t : Token) (rows : List Token)
      → any (bars_insert t) rows ≡ false
      → text_eq t.token_hash hash ≡ true
      → (select_row (matches_unused hash purpose) rows ≡ none)
        × (update_rows (matches_unused hash purpose) use_token rows ≡ rows)
        × (select_row (matches hash purpose) rows ≡ none)
  unfolding any select_row update_rows
  no-match t [] free same = (refl, refl, refl)
  no-match t (row ∷ rows) free same = ground (
    arith,
    no-match t rows,
    text_eq_iff t.token_hash hash,
    text_eq_iff row.token_hash hash,
    text_eq_iff row.token_hash t.token_hash,
  )

  absent-rows :
      (rows : List Token)
      → find (Tokens.matches hash purpose) (keyed rows) ≡ none
      → (select_row (matches_unused hash purpose) rows ≡ none)
        × (update_rows (matches_unused hash purpose) use_token rows ≡ rows)
        × (select_row (matches hash purpose) rows ≡ none)
  unfolding find select_row update_rows keyed
  absent-rows [] absent = (refl, refl, refl)
  absent-rows (row ∷ rows) absent = ground (arith, absent-rows rows)

  used-rows :
      (rows : List Token) (id : ℕ) (x : Token)
      → IsUnique rows
      → find (Tokens.matches hash purpose) (keyed rows) ≡ some (id, x)
      → x.used ≡ true
      → (select_row (matches_unused hash purpose) rows ≡ none)
        × (update_rows (matches_unused hash purpose) use_token rows ≡ rows)
        × (select_row (matches hash purpose) rows ≡ some x)
  unfolding find select_row update_rows keyed IsUnique
  used-rows [] id x v found used = cc
  used-rows (row ∷ rows) id x v found used =
      ground (arith, used-rows rows id x v.1, no-match row rows v.0)

  other-id :
      (t : Token) (rows : List Token) (id : ℕ) (x : Token)
      → any (bars_insert t) rows ≡ false
      → find (Tokens.matches hash purpose) (keyed rows) ≡ some (id, x)
      → t.id ≢ id
  unfolding find any keyed
  other-id t [] id x free found = ground (arith, found)
  other-id t (row ∷ rows) id x free found = ground (arith, other-id t rows id x)

  fresh-rows :
      (rows : List Token) (id : ℕ) (x : Token)
      → IsUnique rows
      → find (Tokens.matches hash purpose) (keyed rows) ≡ some (id, x)
      → x.used ≡ false
      → (select_row (matches_unused hash purpose) rows ≡ some x)
        × (keyed (update_rows (matches_unused hash purpose) use_token rows)
            ≡ insert id (record x { used = true }) (keyed rows))
  unfolding find select_row update_rows keyed IsUnique insert
  fresh-rows [] id x v found unused = cc
  fresh-rows (row ∷ rows) id x v found unused = ground (
    arith,
    fresh-rows rows id x v.1,
    no-match row rows v.0,
    other-id row rows id x v.0,
    text_eq_refl row.token_hash,
  )

  -- On rows with distinct ids and hashes, and as long as the driver reports no failure, ConsumeToken of
  -- the SQLite store returns what that of the in-memory store returns, and leaves the rows that it
  -- leaves.
  pub consume_token-refines :
      (rows : List Token)
      → IsUnique rows
      → let (r, after) = consume_token hash purpose (calm rows) in
        ◌≡◌ {A = Result Token × Map Token}
          (r, keyed after.tables)
          (Tokens.consume_token hash purpose (keyed rows))
  unfolding consume_token consume_statement refused_consume in_transaction outcome
      Tokens.consume_token
  consume_token-refines rows v =
      elim (Option-cases (find (Tokens.matches hash purpose) (keyed rows))) [
        | inl absent ↦ ground (arith, absent, absent-rows rows absent)
        | inr ((id, x), found) ↦ elim (Bool-cases x.used) [
          | inl used ↦ ground (arith, found, used-rows rows id x v found used)
          | inr unused ↦ ground (arith, found, fresh-rows rows id x v found unused)
        ]
      ]

keyed-delete_rows :
    (p : Token → Bool) (q : ℕ → Token → Bool)
    → ((row : Token) → p row ≡ q row.id row)
    → (rows : List Token) → keyed (delete_rows p rows) ≡ remove_if q (keyed rows)
unfolding keyed delete_rows remove_if
keyed-delete_rows p q same [] = refl
keyed-delete_rows p q same (row ∷ rows) = ground (arith, keyed-delete_rows p q same rows, same row)

delete_rows-none :
    (p : Token → Bool)
    → ((row : Token) → p row ≡ false)
    → (rows : List Token) → delete_rows p rows ≡ rows
unfolding delete_rows
delete_rows-none p never [] = refl
delete_rows-none p never (row ∷ rows) = ground (arith, delete_rows-none p never rows, never row)

-- NULL in the column user_id equals no id, the nil id included.
null_differs :
    (row_user user_id : ℕ) (rest : Bool)
    → user_id ≡ nil_id
    → (not (row_user == nil_id) && (row_user == user_id && rest)) ≡ false
null_differs row_user user_id rest nobody = ground arith

not_null :
    (row_user user_id : ℕ) (rest : Bool)
    → user_id ≢ nil_id
    → (not (row_user == nil_id) && (row_user == user_id && rest)) ≡ (row_user == user_id && rest)
not_null row_user user_id rest someone = ground arith

-- As long as the driver reports no failure, the two deletions leave the rows that those of the
-- in-memory store leave.
deletions-refine :
    (user_id now : ℕ) (purpose : TokenPurpose) (rows : List Token)
    → (keyed (delete_user_tokens user_id purpose (calm rows)).1.tables
        ≡ (Tokens.delete_user_tokens user_id purpose (keyed rows)).1)
      × (keyed (delete_expired_tokens now (calm rows)).1.tables
          ≡ (Tokens.delete_expired_tokens now (keyed rows)).1)
unfolding delete_user_tokens delete_expired_tokens outcome Tokens.delete_user_tokens
    Tokens.delete_expired_tokens
deletions-refine user_id now purpose rows = (
  elim (ℕ_discrete user_id nil_id) [
    | yes nobody ↦ ground (
      arith,
      nobody,
      delete_rows-none (issued_to user_id purpose)
          (λ row. null_differs row.user_id user_id _ nobody) rows,
    )
    | no someone ↦ ground (
      arith,
      keyed-delete_rows (issued_to user_id purpose) (Tokens.issued_to user_id purpose)
          (λ row. not_null row.user_id user_id _ someone) rows,
    )
  ],
  ground (arith, keyed-delete_rows (is_expired now) (Tokens.is_expired now) (λ row. refl) rows),
)
