-- ===== src/Sqlite/Sessions.antt =====
-- store/sql/sqlite/session.go and the table sessions of schema.sql. The current time of CleanExpired is
-- its argument.
pub mod Refinement
use sulis.Base.{
  ℕ, Bool, true, false, ◌&&◌, ◌||◌, not, Option, none, some, List, [], ◌∷◌, ◌++◌, ltb, ◌==◌,
  if◌then◌else◌,
}
use sulis.Base.Text.{Text, codes, text_eq}
use sulis.Error.{session_not_found}
use sulis.Exec.{Exec, pure, fail, ◌>>=◌, ◌>>◌}
use sulis.Model.{Session}
use sulis.Service.Tokens.{wrapping}
use sulis.Sqlite.{
  Db, any, select_row, select_rows, count_rows, update_rows, delete_rows, query, execute,
  execute_unless, execute_counted, affected,
}

-- a row that stands in the way of a new row
abbrev pub bars_insert : Session → Session → Bool
bars_insert session row = row.id == session.id || text_eq row.token_hash session.token_hash

unfoldable pub create_session : Session → Exec (Db (List Session)) Unit
create_session session =
    wrapping (codes "sulis/sqlite: creating a session")
      (execute_unless (any (bars_insert session)) (λ rows. rows ++ (session ∷ [])))

abbrev pub has_token_hash : Text → Session → Bool
has_token_hash hash row = text_eq row.token_hash hash

unfoldable pub get_session_by_token_hash : Text → Exec (Db (List Session)) Session
get_session_by_token_hash hash = do
  row ←
      wrapping (codes "sulis/sqlite: reading a session") (query (select_row (has_token_hash hash)))
  elim row [ none ↦ fail session_not_found | some session ↦ pure session ]

abbrev pub belongs_to : ℕ → Session → Bool
belongs_to user_id row = row.user_id == user_id

unfoldable pub list_user_sessions : ℕ → Exec (Db (List Session)) (List Session)
list_user_sessions user_id =
    wrapping (codes "sulis/sqlite: listing a user's sessions")
      (query (select_rows (belongs_to user_id)))

-- a statement on one row, which must be there
abbrev pub on_row :
    Text → (Session → Bool) → (List Session → List Session) → Exec (Db (List Session)) Unit
on_row message p f = do
  changed ← wrapping message (execute_counted (count_rows p) f)
  n ← affected changed
  if n == 0 then fail session_not_found else pure tt

abbrev pub is_owned : ℕ → ℕ → Session → Bool
is_owned user_id id row = row.id == id && row.user_id == user_id

unfoldable pub delete_session : ℕ → ℕ → Exec (Db (List Session)) Unit
delete_session user_id id =
    on_row (codes "sulis/sqlite: deleting a session") (is_owned user_id id)
      (delete_rows (is_owned user_id id))

unfoldable pub delete_user_sessions : ℕ → Exec (Db (List Session)) Unit
delete_user_sessions user_id =
    wrapping (codes "sulis/sqlite: deleting a user's sessions")
      (execute (delete_rows (belongs_to user_id)))

abbrev pub belongs_to_except : ℕ → ℕ → Session → Bool
belongs_to_except user_id keep row = row.user_id == user_id && not (row.id == keep)

unfoldable pub delete_user_sessions_except : ℕ → ℕ → Exec (Db (List Session)) Unit
delete_user_sessions_except user_id keep =
    wrapping (codes "sulis/sqlite: deleting a user's other sessions")
      (execute (delete_rows (belongs_to_except user_id keep)))

abbrev pub is_expired : ℕ → Session → Bool
is_expired now row = ltb row.expires_at now

unfoldable pub clean_expired : ℕ → Exec (Db (List Session)) Unit
clean_expired now =
    wrapping (codes "sulis/sqlite: cleaning expired sessions")
      (execute (delete_rows (is_expired now)))

abbrev pub has_id : ℕ → Session → Bool
has_id id row = row.id == id

unfoldable pub update_authenticated_at : ℕ → ℕ → Exec (Db (List Session)) Unit
update_authenticated_at id at =
    on_row (codes "sulis/sqlite: stamping a session's authenticated_at") (has_id id)
      (update_rows (has_id id) (λ row. record row { authenticated_at = at }))

unfoldable pub touch_session : ℕ → ℕ → Option ℕ → Exec (Db (List Session)) Unit
touch_session id last_seen idle_expires =
    on_row (codes "sulis/sqlite: touching a session") (has_id id) (
      update_rows (has_id id)
        (λ row. record row { last_seen_at = last_seen; idle_expires_at = idle_expires }))
