-- ===== src/Memstore/Sessions.antt =====
-- memstore/session.go. The current time of CleanExpired is its argument.
pub mod Ownership
use sulis.Base.{
  ℕ, Bool, true, false, ◌&&◌, not, Option, none, some, List, length, ltb, ◌==◌, if◌then◌else◌,
}
use sulis.Base.Text.{Text, text_eq}
use sulis.Base.Map.{Map, lookup, insert, delete, remove_if, find, select}
use sulis.Error.{session_not_found}
use sulis.Exec.{Exec, pure, fail}
use sulis.Model.{Session}

unfoldable pub create_session : Session → Exec (Map Session) Unit
create_session session sessions = pure tt (insert session.id session sessions)

abbrev pub has_token_hash : Text → ℕ → Session → Bool
has_token_hash hash id session = text_eq session.token_hash hash

unfoldable pub get_session_by_token_hash : Text → Exec (Map Session) Session
get_session_by_token_hash hash sessions = elim (find (has_token_hash hash) sessions) [
  | none ↦ fail session_not_found sessions
  | some (id, session) ↦ pure session sessions
]

unfoldable pub delete_session : ℕ → ℕ → Exec (Map Session) Unit
delete_session user_id id sessions = elim (lookup id sessions) [
  | none ↦ fail session_not_found sessions
  | some session ↦
      if not (session.user_id == user_id)
      then fail session_not_found sessions
      else pure tt (delete id sessions)
]

abbrev pub belongs_to : ℕ → ℕ → Session → Bool
belongs_to user_id id session = session.user_id == user_id

unfoldable pub delete_user_sessions : ℕ → Exec (Map Session) Unit
delete_user_sessions user_id sessions = pure tt (remove_if (belongs_to user_id) sessions)

abbrev pub belongs_to_except : ℕ → ℕ → ℕ → Session → Bool
belongs_to_except user_id keep id session = session.user_id == user_id && not (id == keep)

unfoldable pub delete_user_sessions_except : ℕ → ℕ → Exec (Map Session) Unit
delete_user_sessions_except user_id keep sessions =
    pure tt (remove_if (belongs_to_except user_id keep) sessions)

unfoldable pub list_user_sessions : ℕ → Exec (Map Session) (List Session)
list_user_sessions user_id sessions = pure (select (belongs_to user_id) sessions) sessions

unfoldable pub update_authenticated_at : ℕ → ℕ → Exec (Map Session) Unit
update_authenticated_at id at sessions = elim (lookup id sessions) [
  | none ↦ fail session_not_found sessions
  | some session ↦ pure tt (insert id (record session { authenticated_at = at }) sessions)
]

unfoldable pub touch_session : ℕ → ℕ → Option ℕ → Exec (Map Session) Unit
touch_session id last_seen idle_expires sessions = elim (lookup id sessions) [
  | none ↦ fail session_not_found sessions
  | some session ↦ pure tt (
      insert id (record session { last_seen_at = last_seen; idle_expires_at = idle_expires })
        sessions)
]

abbrev pub is_expired : ℕ → ℕ → Session → Bool
is_expired now id session = ltb session.expires_at now

unfoldable pub clean_expired : ℕ → Exec (Map Session) Unit
clean_expired now sessions = pure tt (remove_if (is_expired now) sessions)

unfoldable pub len : Map Session → ℕ
len sessions = length sessions
