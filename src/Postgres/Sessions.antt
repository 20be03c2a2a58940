-- ===== src/Postgres/Sessions.antt =====
-- store/sql/postgres/session.go. The current time of CleanExpired is its argument.
use sulis.Base.{ℕ, Bool, Option, none, some, List, [], ◌∷◌, ◌++◌, ◌==◌, if◌then◌else◌}
use sulis.Base.Text.{Text, codes}
use sulis.Error.{session_not_found}
use sulis.Exec.{pure, fail, ◌>>=◌}
use sulis.Model.{Session}
use sulis.Service.Tokens.{wrapping}
use sulis.Sqlite.{any, select_row, select_rows, count_rows, update_rows, delete_rows}
use sulis.Sqlite.Sessions.{
  bars_insert, has_token_hash, belongs_to, is_owned, belongs_to_except, is_expired, has_id,
}
use sulis.Postgres.{Pg, query, execute, execute_unless, execute_counted, affected}

unfoldable pub create_session : Session → Pg (List Session) Unit
create_session session =
    wrapping (codes "sulis/postgres: creating a session")
      (execute_unless (any (bars_insert session)) (λ rows. rows ++ (session ∷ [])))

unfoldable pub get_session_by_token_hash : Text → Pg (List Session) Session
get_session_by_token_hash hash = do
  row ←
      wrapping (codes "sulis/postgres: reading a session")
        (query (select_row (has_token_hash hash)))
  elim row [ none ↦ fail session_not_found | some session ↦ pure session ]

unfoldable pub list_user_sessions : ℕ → Pg (List Session) (List Session)
list_user_sessions user_id =
    wrapping (codes "sulis/postgres: listing a user's sessions")
      (query (select_rows (belongs_to user_id)))

-- a statement on one row, which must be there
abbrev pub on_row :
    Text → Text → (Session → Bool) → (List Session → List Session) → Pg (List Session) Unit
on_row message counting p f = do
  changed ← wrapping message (execute_counted (count_rows p) f)
  n ← affected changed counting
  if n == 0 then fail session_not_found else pure tt

unfoldable pub delete_session : ℕ → ℕ → Pg (List Session) Unit
delete_session user_id id =
    on_row (codes "sulis/postgres: deleting a session")
      (codes "sulis/postgres: deleting a session: reading the affected row count")
      (is_owned user_id id) (delete_rows (is_owned user_id id))

unfoldable pub delete_user_sessions : ℕ → Pg (List Session) Unit
delete_user_sessions user_id =
    wrapping (codes "sulis/postgres: deleting a user's sessions")
      (execute (delete_rows (belongs_to user_id)))

unfoldable pub delete_user_sessions_except : ℕ → ℕ → Pg (List Session) Unit
delete_user_sessions_except user_id keep =
    wrapping (codes "sulis/postgres: deleting a user's other sessions")
      (execute (delete_rows (belongs_to_except user_id keep)))

unfoldable pub clean_expired : ℕ → Pg (List Session) Unit
clean_expired now =
    wrapping (codes "sulis/postgres: cleaning expired sessions")
      (execute (delete_rows (is_expired now)))

unfoldable pub update_authenticated_at : ℕ → ℕ → Pg (List Session) Unit
update_authenticated_at id at =
    on_row (codes "sulis/postgres: stamping a session's authenticated_at")
      (codes
        "sulis/postgres: stamping a session's authenticated_at: reading the affected row count")
      (has_id id) (update_rows (has_id id) (λ row. record row { authenticated_at = at }))

unfoldable pub touch_session : ℕ → ℕ → Option ℕ → Pg (List Session) Unit
touch_session id last_seen idle_expires =
    on_row (codes "sulis/postgres: touching a session")
      (codes "sulis/postgres: touching a session: reading the affected row count") (has_id id)
      (update_rows (has_id id)
        (λ row. record row { last_seen_at = last_seen; idle_expires_at = idle_expires }))
