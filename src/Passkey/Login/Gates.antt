-- ===== src/Passkey/Login/Gates.antt =====
-- What a passkey login has passed when it returns: FinishLoginResponse and finishLoginCredential of
-- passkey/passkey.go.
use sulis.Base.{ℕ, ◌≡◌, ◌≢◌, ◌∙◌, subst, false, List, arith, ◌==◌}
use sulis.Base.Text.{Text, codes}
use sulis.Error.{Result, ok, err, invalid_user}
use sulis.Exec.{Exec, >>=-eq-ok, lift, refuse_if}
use sulis.Model.{nil_id}
use sulis.Passkey.{
  PasskeyService, PasskeyUser, PasskeyCredential, WaCredential, to_webauthn_creds, challenge_key,
  check_ceremony_body_size,
}
use sulis.Passkey.Events.{storing}
use sulis.Passkey.Login.{
  asserting, open_session, take_challenge, finish_login_credential, finish_login_response,
}

module _ {W D : Type 0} (s : PasskeyService W D) where
  storing-ok :
      {A : Type 0} (user_id : ℕ) (operation : Text) (m : Exec W A) (w v : W) (a : A)
      → storing s user_id operation m w ≡ (ok a, v)
      → m w ≡ (ok a, v)
  storing-ok user_id operation m w v a h = ground arith

  asserting-ok :
      {A : Type 0} (user_id : ℕ) (r : Result A) (w v : W) (a : A)
      → asserting s user_id r w ≡ (ok a, v)
      → (r ≡ ok a) × (v ≡ w)
  asserting-ok user_id (ok b) w v a h = (ground arith, ground arith)
  asserting-ok user_id (err e) w v a h = absurd (ground arith)

  open_session-ok :
      (user_id : ℕ) (stored : Text) (w v : W) (d : D)
      → open_session s user_id stored w ≡ (ok d, v)
      → (s.wa.unmarshal stored ≡ ok d) × (v ≡ w)
  unfolding open_session
  open_session-ok user_id stored w v d h = (ground arith, ground arith)

  take_challenge-ok :
      (user_id : ℕ) (key stored : Text) (w v : W)
      → take_challenge s user_id key w ≡ (ok stored, v)
      → s.challenges.consume_challenge key w ≡ (ok stored, v)
  unfolding take_challenge
  take_challenge-ok user_id key stored w v h = ground arith

  -- The login of a credential without clone warning, whose new sign count and backup state are stored.
  finish_login_credential-ok :
      (user_id : ℕ) (proven : WaCredential) (w v : W) (cred : PasskeyCredential)
      → finish_login_credential s user_id proven w ≡ (ok cred, v)
      → (proven.clone_warning ≡ false)
        × ((s.store.update_credential_after_login proven.id proven.sign_count proven.backup_state
              (s.now w).0
              (s.now w).1).0
            ≡ ok tt)
  unfolding finish_login_credential
  finish_login_credential-ok user_id proven w v cred h = ground arith

  -- What was proved of the response that a login accepts.
  pub record Accepted (user : PasskeyUser) (ceremony : ℕ) (body : Text) (w : W) : Type 0 where
    pub creds : List PasskeyCredential
    pub session : D
    pub stored : Text
    pub response : Text
    pub proven : WaCredential
    pub read : W
    pub taken : W
    pub named : user.id ≢ nil_id
    pub small : check_ceremony_body_size s body ≡ ok tt
    pub registered : s.store.get_credentials_by_user_id user.id w ≡ (ok creds, read)
    pub consumed :
        s.challenges.consume_challenge (challenge_key (codes "login") ceremony) read
        ≡ (ok stored, taken)
    pub opened : s.wa.unmarshal stored ≡ ok session
    pub parsed : s.wa.parse_request body ≡ ok response
    pub validated : s.wa.validate_login user (to_webauthn_creds creds) session response ≡ ok proven
    pub not_cloned : proven.clone_warning ≡ false
    pub counted :
        (s.store.update_credential_after_login proven.id proven.sign_count proven.backup_state
          (s.now taken).0
          (s.now taken).1).0
        ≡ ok tt

  -- A passkey login that returns a credential was given a user with an id and a body within the size
  -- limit. The challenge of its ceremony was still stored and has been consumed, and the response
  -- was validated against the session of that challenge and the credentials that the store holds for
  -- the user, with no clone warning. The new sign count and backup state were then stored.
  pub finish_login_response_sound :
      (user : PasskeyUser) (ceremony : ℕ) (body : Text) (w v : W) (cred : PasskeyCredential)
      → finish_login_response s user ceremony body w ≡ (ok cred, v)
      → Accepted user ceremony body w
  unfolding finish_login_response
  finish_login_response_sound user ceremony body w v cred h =
      let (_, w1, named, h1) = >>=-eq-ok (refuse_if (user.id == nil_id) invalid_user) _ w h in
      let (_, w2, small, h2) = >>=-eq-ok (lift (check_ceremony_body_size s body)) _ w1 h1 in
      let (creds, w3, registered, h3) =
        >>=-eq-ok
          (storing s user.id (codes "get_credentials") (s.store.get_credentials_by_user_id user.id))
          _ w2 h2 in
      let (stored, w4, consumed, h4) =
        >>=-eq-ok (take_challenge s user.id (challenge_key (codes "login") ceremony)) _ w3 h3 in
      let (session, w5, opened, h5) = >>=-eq-ok (open_session s user.id stored) _ w4 h4 in
      let (response, w6, parsed, h6) =
        >>=-eq-ok (asserting s user.id (s.wa.parse_request body)) _ w5 h5 in
      let (proven, w7, validated, h7) =
        >>=-eq-ok
          (asserting s user.id
            (s.wa.validate_login user (to_webauthn_creds creds) session response))
          _ w6 h6 in
      let (unmarshalled, w54) = open_session-ok user.id stored w4 w5 session opened in
      let (read_back, w65) = asserting-ok user.id (s.wa.parse_request body) w5 w6 response parsed in
      let (checked, w76) = asserting-ok user.id _ w6 w7 proven validated in
      let (no_warning, recorded) = finish_login_credential-ok user.id proven w7 v cred h7 in
      record {
        creds = creds;
        session = session;
        stored = stored;
        response = response;
        proven = proven;
        read = w3;
        taken = w4;
        named = ground arith;
        small = ground arith;
        registered = ground (
          arith,
          storing-ok user.id (codes "get_credentials") (s.store.get_credentials_by_user_id user.id)
              w2 w3 creds registered,
        );
        consumed =
            take_challenge-ok user.id (challenge_key (codes "login") ceremony) stored w3 w4
              consumed;
        opened = unmarshalled;
        parsed = read_back;
        validated = checked;
        not_cloned = no_warning;
        counted =
            subst
              (λ x.
                (s.store.update_credential_after_login proven.id proven.sign_count
                  proven.backup_state (s.now x).0 (s.now x).1).0
                ≡ ok tt)
              (w76 ∙ (w65 ∙ w54)) recorded;
      }
