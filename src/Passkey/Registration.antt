-- ===== src/Passkey/Registration.antt =====
-- BeginRegistration and FinishRegistration of passkey/passkey.go and passkey/http.go.
use sulis.Base.{ℕ, Option, none, [], map, ◌==◌}
use sulis.Base.Text.{Text, codes}
use sulis.Error.{Result, ok, err, wrapped, invalid_user, challenge_expired}
use sulis.Exec.{Exec, pure, throw, fail, lift, attempt, total, refuse_if, ◌>>=◌, ◌>>◌}
use sulis.Model.{nil_id}
use sulis.Service.Tokens.{wrapping}
use sulis.Passkey.{
  PasskeyService, PasskeyUser, PasskeyCredential, PasskeyEventKind, WaCredential, CreationResponse,
  to_webauthn_creds, challenge_key, check_ceremony_body_size, read_ceremony_body,
  cred_props_resident_key,
}
use sulis.Passkey.Events.{event, emit, emit_diag, storing}

module _ {W D : Type 0} (s : PasskeyService W D) where
  unfoldable pub begin_registration : PasskeyUser → Exec W Text
  unfolding emit
  begin_registration user = do
    refuse_if (user.id == nil_id) invalid_user
    creds ← storing s user.id (codes "get_credentials") (s.store.get_credentials_by_user_id user.id)
    let known = to_webauthn_creds creds
    begun ←
        wrapping (codes "passkey: begin registration")
          (s.wa.begin_registration user known (map (λ (c : WaCredential). c.id) known))
    stored ← wrapping (codes "passkey: marshaling session") (lift (s.wa.marshal begun.1))
    storing s user.id (codes "save_challenge")
        (s.challenges.save_challenge (challenge_key (codes "register") user.id) stored)
    pure begun.0

  -- a check of the response that is reported as a rejection if it fails
  abbrev pub registering : {A : Type 0} → ℕ → Text → Result A → Exec W A
  registering user_id message r = elim r [
    | ok a ↦ pure a
    | err e ↦ do
      emit_diag s (event PasskeyEventKind.registration_rejected user_id [] []) e s.wa.category
      throw (wrapped message e)
  ]

  -- the row of a new credential
  unfoldable pub new_credential : ℕ → ℕ → ℕ → WaCredential → CreationResponse → PasskeyCredential
  new_credential id user_id t c response = record {
    id = id;
    user_id = user_id;
    credential_id = c.id;
    public_key = c.public_key;
    attestation_type = c.attestation_type;
    aaguid = c.aaguid;
    sign_count = c.sign_count;
    name = [];
    transports = c.transports;
    backup_eligible = c.backup_eligible;
    backup_state = c.backup_state;
    last_used_at = none;
    discoverable = cred_props_resident_key response;
    created_at = t;
  }

  -- what follows the challenge of the registration
  unfoldable pub register_with : PasskeyUser → Text → Text → Exec W PasskeyCredential
  unfolding emit emit_diag
  register_with user stored body = do
    opened ← attempt (lift (s.wa.unmarshal stored))
    session ← elim opened [
      | ok d ↦ pure d
      | err e ↦ do
        emit s (event PasskeyEventKind.registration_rejected user.id [] (codes "session_data"))
        throw (wrapped (codes "passkey: unmarshaling session") e)
    ]
    response ←
        registering user.id (codes "passkey: parsing registration response")
          (s.wa.parse_creation body)
    made ←
        registering user.id (codes "passkey: finish registration")
          (s.wa.create_credential user [] session response)
    id ← total s.new_id
    t ← total s.now
    let cred = new_credential id user.id t made response
    storing s user.id (codes "save_credential") (s.store.save_credential cred)
    emit s (event PasskeyEventKind.registration_succeeded user.id [] [])
    pure cred

  unfoldable pub finish_registration_response : PasskeyUser → Text → Exec W PasskeyCredential
  unfolding emit
  finish_registration_response user body = do
    refuse_if (user.id == nil_id) invalid_user
    lift (check_ceremony_body_size s body)
    consumed ← attempt (s.challenges.consume_challenge (challenge_key (codes "register") user.id))
    elim consumed [
      | err _ ↦ do
        emit s (
            event PasskeyEventKind.registration_challenge_expired user.id []
              (codes "challenge_expired"))
        fail challenge_expired
      | ok stored ↦ register_with user stored body
    ]

  unfoldable pub finish_registration : PasskeyUser → Option (Result Text) → Exec W PasskeyCredential
  unfolding read_ceremony_body
  finish_registration user request = do
    body ← lift (read_ceremony_body s request)
    finish_registration_response user body
