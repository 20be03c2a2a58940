-- ===== src/Service/Sessions/Validity.antt =====
-- What a session has passed when ValidateSession, RefreshSession or IssueSession returns it.
use sulis.Base.{◌==◌, ℕ, ◌+◌, ◌≤◌, ◌≡◌, ◌≢◌, none, some, arith}
use sulis.Base.Text.{Text}
use sulis.Error.{ok, not_authenticated}
use sulis.Exec.{>>=-eq-ok, refuse_if}
use sulis.Model.{no_request, AuthMethod, RequestInfo, User, Session, Authentication, nil_id}
use sulis.Model.Event.{EventKind, Reason}
use sulis.Service.{Sulis}
use sulis.Service.Guards.{account_status, require_verified_email, idle_expires_at}
use sulis.Service.Guards.Gates.{
  IsVerified, IsActive, account_status-IsActive, require_verified_email-eq-ok,
}
use sulis.Service.Sessions.{
  validate_session, end_session, touch, create_session, refresh_session, issue_session,
}

module _ {W : Type 0} (s : Sulis W) where
  -- The stored session was within both of its deadlines at time `t`.
  pub record IsLive (session : Session) (t : ℕ) : Type 0 where
    pub lasting : t ≤ session.expires_at
    pub not_idle : (deadline : ℕ) → session.idle_expires_at ≡ some deadline → t ≤ deadline

  -- the same session, but for the times that a touch refreshes
  pub record SameSession (a b : Session) : Type 0 where
    pub id : a.id ≡ b.id
    pub user_id : a.user_id ≡ b.user_id
    pub expires_at : a.expires_at ≡ b.expires_at
    pub authenticated_at : a.authenticated_at ≡ b.authenticated_at

  not_ended :
      (kind : EventKind) (session : Session) (why : Reason) (r : Session × User) (w v : W)
      → end_session s kind session why w ≢ (ok r, v)
  unfolding end_session
  not_ended kind session why r w v h = ground arith

  touch-SameSession :
      (session x : Session) (t : ℕ) (w v : W)
      → touch s session t w ≡ (ok x, v)
      → SameSession x session
  unfolding touch
  touch-SameSession session x t w v h = ground arith

  module _ (token : Text) (w v : W) (x : Session) (u : User) where
    -- ValidateSession returns a session only if the store has it under the token's hash, it has
    -- passed neither its absolute nor its idle deadline, and its user is found and not disabled.
    pub validate_session_sound :
        validate_session s token w ≡ (ok (x, u), v)
        → (stored : Session) × (w1 : W) × (s.sessions.get_session_by_token_hash
              (s.platform.sha256_hex token)
              w
            ≡ (ok stored, w1))
          × IsLive stored (s.platform.now w1).0
          × ((s.users.get_user_by_id stored.user_id (s.platform.now w1).1).0 ≡ ok u)
          × (u.disabled_at ≡ none)
          × SameSession x stored
    unfolding validate_session
    validate_session_sound h =
        let (stored, w1, found, h1) =
          >>=-eq-ok (s.sessions.get_session_by_token_hash (s.platform.sha256_hex token)) _ w h in
        let t = s.platform.now w1 in
        let idle =
          not_ended EventKind.session_idle_expired stored Reason.idle_timeout (x, u) t.1 v in
        let late = not_ended EventKind.session_expired stored Reason.absolute_expiry (x, u) t.1 v in
        let after = (s.users.get_user_by_id stored.user_id t.1).1 in
        (
          stored,
          w1,
          found,
          record { lasting = ground arith; not_idle = λ deadline e. ground arith },
          ground arith,
          ground arith,
          touch-SameSession stored x t.0 after v (ground arith),
        )

  -- A new session stands for its token by the token's hash, belongs to the user it was asked for, and
  -- ends SessionDuration after it was made.
  create_session_lem :
      (user_id : ℕ) (how : AuthMethod) (at : ℕ) (ri : RequestInfo) (w v : W) (x : Session)
      (token : Text)
      → create_session s user_id how at ri w ≡ (ok (x, token), v)
      → (x.token_hash ≡ s.platform.sha256_hex token)
        × (x.user_id ≡ user_id)
        × (x.authenticated_at ≡ at)
        × (x.method ≡ how)
        × (x.expires_at ≡ x.created_at + s.cfg.session_duration)
        × (x.idle_expires_at ≡ idle_expires_at s x.created_at)
  unfolding create_session
  create_session_lem user_id how at ri w v x token h =
      (ground arith, ground arith, ground arith, ground arith, ground arith, ground arith)

  -- RefreshSession returns a session only after the old one was deleted, and only for a user who is
  -- then found active, with a verified address where that is required. The new session is the old
  -- user's, and as old and as recently authenticated as the old one.
  pub refresh_session_sound :
      (session x : Session) (token : Text) (w v : W)
      → refresh_session s session w ≡ (ok (x, token), v)
      → (w1 : W) × (user : User) × (w2 : W) × (s.sessions.delete_session session.user_id session.id
            w
          ≡ (ok tt, w1))
        × (s.users.get_user_by_id session.user_id w1 ≡ (ok user, w2))
        × IsActive user (s.platform.now w2).0
        × IsVerified s user
        × (x.user_id ≡ session.user_id)
        × (x.created_at ≡ session.created_at)
        × (x.authenticated_at ≡ session.authenticated_at)
        × (x.token_hash ≡ s.platform.sha256_hex token)
  unfolding refresh_session
  refresh_session_sound session x token w v h =
      let (_, w1, deleted, h1) =
        >>=-eq-ok (s.sessions.delete_session session.user_id session.id) _ w h in
      let (user, w2, found, h2) = >>=-eq-ok (s.users.get_user_by_id session.user_id) _ w1 h1 in
      let (_, w3, active, h3) = >>=-eq-ok (account_status s user) _ w2 h2 in
      let (_, w4, verified, h4) = >>=-eq-ok (require_verified_email s user) _ w3 h3 in
      (
        w1,
        user,
        w2,
        deleted,
        found,
        account_status-IsActive s user w2 w3 active,
        require_verified_email-eq-ok s user w3 w4 verified,
        ground arith,
        ground arith,
        ground arith,
        ground arith,
      )

  -- IssueSession needs a proof of authentication: it returns a session only for one that names a user,
  -- who is found active, with a verified address where that is required.
  issue_session_sound :
      (auth : Authentication) (x : Session) (token : Text) (w v : W)
      → issue_session s auth w ≡ (ok (x, token), v)
      → (auth.user_id ≢ nil_id)
        × ((user : User) × (w1 : W) × (s.users.get_user_by_id auth.user_id w ≡ (ok user, w1))
            × IsActive user (s.platform.now w1).0
            × IsVerified s user
            × (x.user_id ≡ user.id)
            × (x.authenticated_at ≡ auth.at))
  unfolding issue_session
  issue_session_sound auth x token w v h =
      let (_, w0, named, h0) =
        >>=-eq-ok (refuse_if (auth.user_id == nil_id) not_authenticated) _ w h in
      let (user, w1, found, h1) = >>=-eq-ok (s.users.get_user_by_id auth.user_id) _ w0 h0 in
      let (_, w2, active, h2) = >>=-eq-ok (account_status s user) _ w1 h1 in
      let (_, w3, verified, h3) = >>=-eq-ok (require_verified_email s user) _ w2 h2 in
      let made = create_session_lem user.id auth.method auth.at no_request w3 v x token h3 in
      (
        ground arith,
        (
          user,
          w1,
          ground arith,
          account_status-IsActive s user w1 w2 active,
          require_verified_email-eq-ok s user w2 w3 verified,
          made.1,
          made.2,
        ),
      )
