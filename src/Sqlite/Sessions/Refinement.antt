-- ===== src/Sqlite/Sessions/Refinement.antt =====
-- The changes of stored sessions in store/sql/sqlite/session.go beside those of memstore/session.go.
use native.Mathlib.Decide.{ℕ_discrete}
use sulis.Base.{
  ℕ, ◌≡◌, ◌≢◌, refl, Bool, Option, none, some, List, [], ◌∷◌, arith, Option-cases, inl, inr,
}
use sulis.Base.Map.{Map, lookup, insert, delete, remove_if, DistinctKeys}
use sulis.Error.{Result}
use sulis.Exec.{Exec}
use sulis.Model.{Session}
use sulis.Memstore.Sessions
use sulis.Sqlite.{Db, count_rows, update_rows, delete_rows, outcome, affected}
use sulis.Sqlite.Sessions.{
  delete_session, delete_user_sessions, delete_user_sessions_except, clean_expired,
  update_authenticated_at, touch_session, is_owned, has_id, belongs_to, belongs_to_except,
  is_expired,
}

unfoldable pub keyed : List Session → Map Session
keyed [] = []
keyed (row ∷ rows) = (row.id, row) ∷ keyed rows

-- the calls that change stored sessions
pub data Change : Type 0 where
  deletes : ℕ → ℕ → Change
  deletes_all cleans : ℕ → Change
  deletes_others : ℕ → ℕ → Change
  authenticates : ℕ → ℕ → Change
  touches : ℕ → ℕ → Option ℕ → Change

unfoldable pub change_sql : Change → Exec (Db (List Session)) (Unit {0})
change_sql (deletes user_id id) = delete_session user_id id
change_sql (deletes_all user_id) = delete_user_sessions user_id
change_sql (cleans now) = clean_expired now
change_sql (deletes_others user_id keep) = delete_user_sessions_except user_id keep
change_sql (authenticates id at) = update_authenticated_at id at
change_sql (touches id last_seen idle_expires) = touch_session id last_seen idle_expires

unfoldable pub change_memory : Change → Exec (Map Session) (Unit {0})
change_memory (deletes user_id id) = Sessions.delete_session user_id id
change_memory (deletes_all user_id) = Sessions.delete_user_sessions user_id
change_memory (cleans now) = Sessions.clean_expired now
change_memory (deletes_others user_id keep) = Sessions.delete_user_sessions_except user_id keep
change_memory (authenticates id at) = Sessions.update_authenticated_at id at
change_memory (touches id last_seen idle_expires) = Sessions.touch_session id last_seen idle_expires

keyed-delete_rows :
    (p : Session → Bool) (rows : List Session)
    → keyed (delete_rows p rows) ≡ remove_if (λ id row. p row) (keyed rows)
unfolding keyed delete_rows remove_if
keyed-delete_rows p [] = refl
keyed-delete_rows p (row ∷ rows) = ground (arith, keyed-delete_rows p rows)

keyed-others :
    (user_id keep : ℕ) (rows : List Session)
    → keyed (delete_rows (belongs_to_except user_id keep) rows)
      ≡ remove_if (Sessions.belongs_to_except user_id keep) (keyed rows)
unfolding keyed delete_rows remove_if
keyed-others user_id keep [] = refl
keyed-others user_id keep (row ∷ rows) = ground (arith, keyed-others user_id keep rows)

absent-rows :
    (id user_id : ℕ) (f : Session → Session) (rows : List Session)
    → lookup id (keyed rows) ≡ none
    → (count_rows (has_id id) rows ≡ 0)
      × (update_rows (has_id id) f rows ≡ rows)
      × (count_rows (is_owned user_id id) rows ≡ 0)
      × (delete_rows (is_owned user_id id) rows ≡ rows)
      × (delete id (keyed rows) ≡ keyed rows)
unfolding keyed lookup count_rows update_rows delete_rows delete
absent-rows id user_id f [] absent = (refl, refl, refl, refl, refl)
absent-rows id user_id f (row ∷ rows) absent = ground (arith, absent-rows id user_id f rows)

module _ (id : ℕ) (x : Session) where
  updated-rows :
      (f : Session → Session) (rows : List Session)
      → ((row : Session) → (f row).id ≡ row.id)
      → DistinctKeys (keyed rows)
      → lookup id (keyed rows) ≡ some x
      → (count_rows (has_id id) rows ≡ 1)
        × (keyed (update_rows (has_id id) f rows) ≡ insert id (f x) (keyed rows))
  unfolding keyed lookup count_rows update_rows insert
  updated-rows f [] same d there = cc
  updated-rows f (row ∷ rows) same d there =
      ground (arith, updated-rows f rows same d.1, absent-rows id 0 f rows, same row)

  owned-rows :
      (user_id : ℕ) (rows : List Session)
      → DistinctKeys (keyed rows)
      → lookup id (keyed rows) ≡ some x
      → x.user_id ≡ user_id
      → (count_rows (is_owned user_id id) rows ≡ 1)
        × (keyed (delete_rows (is_owned user_id id) rows) ≡ delete id (keyed rows))
  unfolding keyed lookup count_rows delete_rows delete
  owned-rows user_id [] d there own = cc
  owned-rows user_id (row ∷ rows) d there own =
      ground (arith, owned-rows user_id rows d.1, absent-rows id user_id (λ r. r) rows)

  foreign-rows :
      (user_id : ℕ) (rows : List Session)
      → DistinctKeys (keyed rows)
      → lookup id (keyed rows) ≡ some x
      → x.user_id ≢ user_id
      → (count_rows (is_owned user_id id) rows ≡ 0)
        × (delete_rows (is_owned user_id id) rows ≡ rows)
  unfolding keyed lookup count_rows delete_rows
  foreign-rows user_id [] d there other = cc
  foreign-rows user_id (row ∷ rows) d there other =
      ground (arith, foreign-rows user_id rows d.1, absent-rows id user_id (λ r. r) rows)

-- On rows with distinct ids, and as long as the driver reports no failure, each change of the SQLite
-- session store returns what that of the in-memory store returns, and leaves the rows that it leaves.
pub change_sql-refines :
    (change : Change) (rows : List Session)
    → DistinctKeys (keyed rows)
    → let (r, after) = change_sql change (record { tables = rows; outcomes = [] }) in
      ◌≡◌ {A = Result Unit × Map Session}
        (r, keyed after.tables)
        (change_memory change (keyed rows))
unfolding change_sql change_memory outcome affected delete_session delete_user_sessions
    clean_expired delete_user_sessions_except update_authenticated_at touch_session
    Sessions.delete_session Sessions.delete_user_sessions Sessions.clean_expired
    Sessions.delete_user_sessions_except Sessions.update_authenticated_at Sessions.touch_session
change_sql-refines (deletes user_id id) rows d = elim (Option-cases (lookup id (keyed rows))) [
  | inl absent ↦ ground (arith, absent, absent-rows id user_id (λ row. row) rows absent)
  | inr (x, there) ↦ elim (ℕ_discrete x.user_id user_id) [
    | yes own ↦ ground (arith, there, owned-rows id x user_id rows d there own)
    | no other ↦ ground (arith, there, foreign-rows id x user_id rows d there other)
  ]
]
change_sql-refines (deletes_all user_id) rows d =
    ground (arith, keyed-delete_rows (belongs_to user_id) rows)
change_sql-refines (cleans now) rows d = ground (arith, keyed-delete_rows (is_expired now) rows)
change_sql-refines (deletes_others user_id keep) rows d =
    ground (arith, keyed-others user_id keep rows)
change_sql-refines (authenticates id at) rows d = elim (Option-cases (lookup id (keyed rows))) [
  | inl absent ↦
      ground
        (arith, absent, absent-rows id 0 (λ row. record row { authenticated_at = at }) rows absent)
  | inr (x, there) ↦ ground (
    arith,
    there,
    updated-rows id x (λ row. record row { authenticated_at = at }) rows (λ row. refl) d there,
  )
]
change_sql-refines (touches id last_seen idle_expires) rows d =
    let stamp : Session → Session =
      λ row. record row { last_seen_at = last_seen; idle_expires_at = idle_expires } in
    elim (Option-cases (lookup id (keyed rows))) [
      | inl absent ↦ ground (arith, absent, absent-rows id 0 stamp rows absent)
      | inr (x, there) ↦ ground (arith, there, updated-rows id x stamp rows (λ row. refl) d there)
    ]
