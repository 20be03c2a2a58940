-- ===== src/Memstore/Sessions/Ownership.antt =====
-- Who may end which session, by memstore/session.go.
use sulis.Base.{ℕ, ◌≡◌, ◌≢◌, ◌↔◌, none, some, arith, Option-cases, inl, inr, ◌==◌, if◌then◌else◌}
use sulis.Base.Text.{Text}
use sulis.Base.Map.{
  Map, lookup, remove_if, find, DistinctKeys, lookup-delete, lookup-remove_if, find-remove_if,
}
use sulis.Error.{ok, err}
use sulis.Model.{Session}
use sulis.Memstore.Sessions.{
  get_session_by_token_hash, delete_session, delete_user_sessions, has_token_hash, belongs_to,
}

-- A user ends a session exactly if it is the user's own; no other session is touched, and a refusal
-- writes nothing.
delete_session_owned :
    (user_id id : ℕ) (sessions : Map Session)
    → (((delete_session user_id id sessions).0 ≡ ok tt)
        ↔ ((x : Session) × (lookup id sessions ≡ some x) × (x.user_id ≡ user_id)))
      × ((j : ℕ)
          → lookup j (delete_session user_id id sessions).1
            ≡ elim (delete_session user_id id sessions).0 [
              | ok _ ↦ if id == j then none else lookup j sessions
              | err _ ↦ lookup j sessions
            ])
unfolding delete_session
delete_session_owned user_id id sessions = elim (Option-cases (lookup id sessions)) [
  | inl absent ↦
      ((λ h. ground (arith, absent), λ h. ground (arith, absent)), λ j. rw (absent, delete_session))
  | inr (x, present) ↦ (
    (λ h. (x, present, ground (arith, present)), λ h. ground (arith, present)),
    λ j. ground (arith, present, lookup-delete id j sessions),
  )
]

-- After DeleteUserSessions no token hash finds a session of the user.
pub delete_user_sessions_found :
    (user_id : ℕ) (sessions : Map Session) (hash : Text) (x : Session)
    → (get_session_by_token_hash hash (delete_user_sessions user_id sessions).1).0 ≡ ok x
    → x.user_id ≢ user_id
unfolding get_session_by_token_hash delete_user_sessions
delete_user_sessions_found user_id sessions hash x h owned =
    elim (Option-cases (find (has_token_hash hash) (remove_if (belongs_to user_id) sessions))) [
      | inl missing ↦ ground (arith, missing)
      | inr ((id, y), found) ↦ ground (
        arith,
        found,
        find-remove_if (belongs_to user_id) (has_token_hash hash) sessions id y found,
      )
    ]

-- DeleteUserSessions leaves every session of another user as it was.
delete_user_sessions_kept :
    (user_id : ℕ) (sessions : Map Session) (j : ℕ) (x : Session)
    → DistinctKeys sessions
    → lookup j sessions ≡ some x
    → x.user_id ≢ user_id
    → lookup j (delete_user_sessions user_id sessions).1 ≡ some x
unfolding delete_user_sessions
delete_user_sessions_kept user_id sessions j x d at other =
    ground (arith, lookup-remove_if (belongs_to user_id) j sessions d)
