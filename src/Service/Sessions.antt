-- ===== src/Service/Sessions.antt =====
-- Issuing, validating, refreshing and revoking sessions: ListUserSessions and RefreshSession of
-- session.go; IssueSession, IssueSessionUnchecked, issueSession, issueSessionForUser, createSession
-- and newAuthentication of issue.go; ValidateSession, RevokeSession, RevokeAllSessions,
-- revokeUserSessions and emitSessionEnded of sulis.go.
pub mod Validity
use sulis.Base.{
  ℕ, ◌+◌, Bool, true, false, Option, none, some, List, [], ◌∷◌, map, ltb, leb, ◌==◌, if◌then◌else◌,
  is_some,
}
use sulis.Base.Text.{Text}
use sulis.Error.{
  Error, Result, ok, err, session_expired, account_disabled, not_authenticated, user_not_found,
}
use sulis.Exec.{Exec, pure, throw, fail, attempt, total, refuse_if, ◌>>=◌, ◌>>◌}
use sulis.Model.{User, Session, AuthMethod, Authentication, RequestInfo, no_request, nil_id}
use sulis.Model.Event.{EventKind, Reason, reason, method, single_session, all_sessions}
use sulis.Service.{Sulis}
use sulis.Service.Guards.{
  event, now, emit, account_status, require_verified_email, session_touch_interval, idle_expires_at,
}

module _ {W : Type 0} (s : Sulis W) where
  unfoldable pub create_session : ℕ → AuthMethod → ℕ → RequestInfo → Exec W (Session × Text)
  create_session user_id how authenticated_at ri = do
    token ← s.platform.random_hex s.cfg.session_token_bytes
    t ← now s
    id ← total s.platform.new_id
    let session =
        let r : Session = record {
          id = id;
          user_id = user_id;
          token_hash = s.platform.sha256_hex token;
          expires_at = t + s.cfg.session_duration;
          created_at = t;
          authenticated_at = authenticated_at;
          method = how;
          last_seen_at = t;
          idle_expires_at = idle_expires_at s t;
          ip = ri.ip;
          user_agent = ri.user_agent;
          metadata = none;
        } in
        r
    s.sessions.create_session session
    emit s (event EventKind.session_issued user_id session.id ri (method how ∷ []))
    pure (session, token)

  unfoldable pub issue_session_for_user : User → AuthMethod → ℕ → Exec W (Session × Text)
  unfolding create_session
  issue_session_for_user user how authenticated_at = do
    account_status s user
    require_verified_email s user
    create_session user.id how authenticated_at no_request

  unfoldable pub issue_session_of : Authentication → Exec W (Session × Text)
  unfolding issue_session_for_user
  issue_session_of auth = do
    user ← s.users.get_user_by_id auth.user_id
    issue_session_for_user user auth.method auth.at

  unfoldable pub issue_session : Authentication → Exec W (Session × Text)
  unfolding issue_session_of
  issue_session auth = do
    refuse_if (auth.user_id == nil_id) not_authenticated
    issue_session_of auth

  unfoldable pub new_authentication : ℕ → AuthMethod → Exec W Authentication
  new_authentication user_id how = do
    t ← now s
    pure (record { user_id = user_id; method = how; at = t })

  unfoldable pub issue_session_unchecked : ℕ → AuthMethod → Exec W (Session × Text)
  unfolding issue_session_of new_authentication
  issue_session_unchecked user_id how = do
    refuse_if (user_id == nil_id) user_not_found
    auth ← new_authentication user_id how
    issue_session_of auth

  unfoldable pub emit_session_ended : EventKind → Session → Reason → Exec W Unit
  emit_session_ended kind session why =
      emit s (event kind session.user_id session.id no_request (reason why ∷ []))

  -- delete the row, whatever the store answers, report the end and refuse
  unfoldable pub end_session : EventKind → Session → Reason → Exec W (Session × User)
  unfolding emit_session_ended
  end_session kind session why = do
    attempt (s.sessions.delete_session session.user_id session.id)
    emit_session_ended kind session why
    fail session_expired

  -- the throttled refresh of LastSeenAt and IdleExpiresAt, a failure of which is ignored
  unfoldable pub touch : Session → ℕ → Exec W Session
  touch session t =
      if leb (session.last_seen_at + session_touch_interval s) t
      then (do
        touched ← attempt (s.sessions.touch_session session.id t (idle_expires_at s t))
        elim touched [
          | ok _ ↦ pure (record session { last_seen_at = t; idle_expires_at = idle_expires_at s t })
          | err _ ↦ pure session
        ])
      else pure session

  -- now.After(*deadline), for a deadline that may be nil
  abbrev pub is_past : Option ℕ → ℕ → Bool
  is_past none t = false
  is_past (some deadline) t = ltb deadline t

  unfoldable pub validate_session : Text → Exec W (Session × User)
  validate_session token = do
    session ← s.sessions.get_session_by_token_hash (s.platform.sha256_hex token)
    t ← now s
    if is_past session.idle_expires_at t
        then end_session EventKind.session_idle_expired session Reason.idle_timeout
        else if ltb session.expires_at t
        then end_session EventKind.session_expired session Reason.absolute_expiry
        else do
          user ← s.users.get_user_by_id session.user_id
          refuse_if (is_some user.disabled_at) account_disabled
          validated ← touch session t
          pure (validated, user)

  unfoldable pub revoke_session : ℕ → ℕ → Exec W Unit
  revoke_session user_id session_id = do
    s.sessions.delete_session user_id session_id
    emit s (event EventKind.session_revoked user_id session_id no_request (single_session ∷ []))

  unfoldable pub revoke_user_sessions : ℕ → Exec W Unit
  revoke_user_sessions user_id = do
    s.sessions.delete_user_sessions user_id
    emit s (event EventKind.session_revoked user_id nil_id no_request (all_sessions ∷ []))

  unfoldable pub revoke_all_sessions : ℕ → Exec W Unit
  unfolding revoke_user_sessions
  revoke_all_sessions user_id = revoke_user_sessions user_id

  abbrev pub without_token_hash : Session → Session
  without_token_hash session = record session { token_hash = [] }

  unfoldable pub list_user_sessions : ℕ → Exec W (List Session)
  list_user_sessions user_id = do
    sessions ← s.sessions.list_user_sessions user_id
    pure (map without_token_hash sessions)

  unfoldable pub refresh_session : Session → Exec W (Session × Text)
  refresh_session session = do
    s.sessions.delete_session session.user_id session.id
    user ← s.users.get_user_by_id session.user_id
    account_status s user
    require_verified_email s user
    token ← s.platform.random_hex s.cfg.session_token_bytes
    t ← now s
    id ← total s.platform.new_id
    let fresh = record session {
      id = id;
      token_hash = s.platform.sha256_hex token;
      expires_at = t + s.cfg.session_duration;
      last_seen_at = t;
      idle_expires_at = idle_expires_at s t;
    }
    s.sessions.create_session fresh
    emit s (
        event EventKind.session_refreshed fresh.user_id fresh.id no_request
          (method fresh.method ∷ []))
    pure (fresh, token)
