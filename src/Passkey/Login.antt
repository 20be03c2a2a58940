-- ===== src/Passkey/Login.antt =====
-- BeginLogin, FinishLogin, BeginDiscoverableLogin and FinishDiscoverableLogin of passkey/passkey.go and
-- passkey/http.go.
pub mod Gates
use sulis.Base.{ℕ, Bool, not, Option, none, some, List, [], ◌∷◌, ◌==◌, if◌then◌else◌}
use sulis.Base.Text.{Text, codes, text_eq}
use sulis.Error.{
  Error, Result, ok, err, wrapped, joined, sentinel, invalid_user, challenge_expired,
  challenge_failed, clone_warning, passkey_not_found, user_handle_mismatch,
}
use sulis.Exec.{Exec, pure, throw, fail, lift, attempt, total, refuse_if, ◌>>=◌, ◌>>◌}
use sulis.Model.{nil_id}
use sulis.Service.Tokens.{wrapping}
use sulis.Passkey.{
  PasskeyService, PasskeyUser, PasskeyCredential, PasskeyEventKind, WaCredential, WebauthnUser,
  to_webauthn_creds, challenge_key, check_ceremony_body_size, read_ceremony_body,
}
use sulis.Passkey.Events.{event, emit, emit_diag, storing}

-- len(creds) == 0
abbrev pub has_none : List PasskeyCredential → Bool
has_none [] = Bool.true
has_none (c ∷ creds) = Bool.false

module _ {W D : Type 0} (s : PasskeyService W D) where
  -- the assertion and the id of the ceremony
  unfoldable pub begin_login : PasskeyUser → Exec W (Text × ℕ)
  unfolding emit
  begin_login user = do
    refuse_if (user.id == nil_id) invalid_user
    creds ← storing s user.id (codes "get_credentials") (s.store.get_credentials_by_user_id user.id)
    refuse_if (has_none creds) passkey_not_found
    begun ←
        wrapping (codes "passkey: begin login") (s.wa.begin_login user (to_webauthn_creds creds))
    stored ← wrapping (codes "passkey: marshaling session") (lift (s.wa.marshal begun.1))
    ceremony ← total s.new_id
    storing s user.id (codes "save_challenge")
        (s.challenges.save_challenge (challenge_key (codes "login") ceremony) stored)
    pure (begun.0, ceremony)

  unfoldable pub finish_login_credential : ℕ → WaCredential → Exec W PasskeyCredential
  unfolding emit
  finish_login_credential user_id c =
      if c.clone_warning
      then (do
        emit s (event PasskeyEventKind.clone_detected user_id [] (codes "clone_warning"))
        fail clone_warning)
      else (do
        t ← total s.now
        storing s user_id (codes "update_credential_after_login")
            (s.store.update_credential_after_login c.id c.sign_count c.backup_state t)
        cred ← storing s user_id (codes "get_credential") (s.store.get_credential_by_id c.id)
        emit s (event PasskeyEventKind.login_succeeded user_id [] [])
        pure cred)

  -- a check of the response that is reported as a rejection if it fails
  abbrev pub asserting : {A : Type 0} → ℕ → Result A → Exec W A
  asserting user_id r = elim r [
    | ok a ↦ pure a
    | err e ↦ do
      emit_diag s (event PasskeyEventKind.login_rejected user_id [] []) e s.wa.category
      throw (joined (sentinel challenge_failed) e)
  ]

  -- the session data of a challenge that was consumed
  unfoldable pub open_session : ℕ → Text → Exec W D
  unfolding emit
  open_session user_id stored = elim (s.wa.unmarshal stored) [
    | ok d ↦ pure d
    | err e ↦ do
      emit s (event PasskeyEventKind.login_rejected user_id [] (codes "session_data"))
      throw (wrapped (codes "passkey: unmarshaling session") e)
  ]

  -- the challenge of a login ceremony
  unfoldable pub take_challenge : ℕ → Text → Exec W Text
  unfolding emit
  take_challenge user_id key = do
    consumed ← attempt (s.challenges.consume_challenge key)
    elim consumed [
      | ok stored ↦ pure stored
      | err _ ↦ do
        emit s
            (event PasskeyEventKind.login_challenge_expired user_id [] (codes "challenge_expired"))
        fail challenge_expired
    ]

  unfoldable pub finish_login_response : PasskeyUser → ℕ → Text → Exec W PasskeyCredential
  finish_login_response user ceremony body = do
    refuse_if (user.id == nil_id) invalid_user
    lift (check_ceremony_body_size s body)
    creds ← storing s user.id (codes "get_credentials") (s.store.get_credentials_by_user_id user.id)
    stored ← take_challenge user.id (challenge_key (codes "login") ceremony)
    session ← open_session user.id stored
    response ← asserting user.id (s.wa.parse_request body)
    proven ← asserting user.id (s.wa.validate_login user (to_webauthn_creds creds) session response)
    finish_login_credential user.id proven

  unfoldable pub finish_login : PasskeyUser → ℕ → Option (Result Text) → Exec W PasskeyCredential
  unfolding read_ceremony_body
  finish_login user ceremony request = do
    body ← lift (read_ceremony_body s request)
    finish_login_response user ceremony body

  unfoldable pub begin_discoverable_login : Exec W (Text × ℕ)
  unfolding emit
  begin_discoverable_login = do
    begun ← wrapping (codes "passkey: begin discoverable login") s.wa.begin_discoverable_login
    stored ← wrapping (codes "passkey: marshaling session") (lift (s.wa.marshal begun.1))
    ceremony ← total s.new_id
    storing s nil_id (codes "save_challenge")
        (s.challenges.save_challenge (challenge_key (codes "discover") ceremony) stored)
    pure (begun.0, ceremony)

  -- a step of the world beside the variable resolvedUserID
  abbrev pub beside : {A : Type 0} → Exec W A → Exec (ℕ × W) A
  beside m w = let (r, w') = m w.1 in (r, (w.0, w'))

  -- resolvedUserID = id
  abbrev pub assign : ℕ → Exec (ℕ × W) Unit
  assign id w = (ok tt, (id, w.1))

  -- the handler of FinishDiscoverableLogin: the owner of the credential, whom the handle must name
  unfoldable pub resolve_user : Text → Text → Exec (ℕ × W) WebauthnUser
  unfolding emit
  resolve_user raw_id user_handle = do
    found ← attempt (beside (s.store.get_credential_by_id raw_id))
    elim found [
      | err _ ↦ do
        beside (emit s (event PasskeyEventKind.store_failed nil_id (codes "get_credential") []))
        fail passkey_not_found
      | ok cred ↦ do
        refuse_if (not (text_eq (cred.user_id ∷ []) user_handle)) user_handle_mismatch
        assign cred.user_id
        pure (record {
          user = record { id = cred.user_id; name = []; display_name = [] };
          credentials = cred ∷ [];
        })
    ]

  -- what follows the parsed response: the validation, and the login of the user that it resolved
  unfoldable pub finish_discovered : D → Text → Exec W PasskeyCredential
  finish_discovered session response w =
      let (r, after) = s.wa.validate_discoverable_login resolve_user session response (nil_id, w) in
      (asserting after.0 r >>= finish_login_credential after.0) after.1

  unfoldable pub finish_discoverable_login_response : ℕ → Text → Exec W PasskeyCredential
  finish_discoverable_login_response ceremony body = do
    lift (check_ceremony_body_size s body)
    stored ← take_challenge nil_id (challenge_key (codes "discover") ceremony)
    session ← open_session nil_id stored
    response ← asserting nil_id (s.wa.parse_request body)
    finish_discovered session response

  unfoldable pub finish_discoverable_login : ℕ → Option (Result Text) → Exec W PasskeyCredential
  unfolding read_ceremony_body
  finish_discoverable_login ceremony request = do
    body ← lift (read_ceremony_body s request)
    finish_discoverable_login_response ceremony body
