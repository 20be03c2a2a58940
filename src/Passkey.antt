-- ===== src/Passkey.antt =====
-- Package passkey: its credentials, stores and configuration, from passkey/store.go,
-- passkey/passkey.go and passkey/events.go.
--
-- `WebAuthn` stands for package webauthn, which checks the ceremonies. The creation options, assertions
-- and parsed responses that only pass through are text; `D` is webauthn.SessionData.
pub mod Events
pub mod Registration
pub mod Login
pub mod Management
pub mod Construction
use sulis.Base.{
  ℕ, Bool, Option, none, some, List, ◌∷◌, ◌++◌, [], true, false, ltb, if◌then◌else◌, length, map,
}
use sulis.Base.Text.{Text, codes}
use sulis.Error.{Error, Result, ok, err, sentinel, wrapped, ceremony_body_too_large}
use sulis.Exec.{Exec}

pub record PasskeyCredential : Type 0 where
  pub id : ℕ
  pub user_id : ℕ
  pub credential_id : Text
  pub public_key : Text
  pub attestation_type : Text
  pub aaguid : Text
  pub sign_count : ℕ
  pub name : Text
  pub transports : List Text
  pub backup_eligible : Bool
  pub backup_state : Bool
  pub last_used_at : Option ℕ
  pub discoverable : Bool
  pub created_at : ℕ

pub record PasskeyStore (W : Type 0) : Type 0 where
  pub save_credential : PasskeyCredential → Exec W Unit
  pub get_credentials_by_user_id : ℕ → Exec W (List PasskeyCredential)
  pub get_credential_by_id : Text → Exec W PasskeyCredential
  -- the credential, its sign count, its backup state and the time of the login
  pub update_credential_after_login : Text → ℕ → Bool → ℕ → Exec W Unit
  -- the user, the credential, and whether it may be the user's last
  pub delete_credential : ℕ → ℕ → Bool → Exec W Unit
  pub delete_credentials_by_user_id : ℕ → Exec W Unit
  pub rename_credential : ℕ → ℕ → Text → Exec W Unit

pub record ChallengeStore (W : Type 0) : Type 0 where
  pub save_challenge : Text → Text → Exec W Unit
  pub consume_challenge : Text → Exec W Text

-- webauthn.Credential, as far as the service reads or writes it
pub record WaCredential : Type 0 where
  pub id : Text
  pub public_key : Text
  pub attestation_type : Text
  pub transports : List Text
  pub backup_eligible : Bool
  pub backup_state : Bool
  pub aaguid : Text
  pub sign_count : ℕ
  pub clone_warning : Bool

pub record PasskeyUser : Type 0 where
  pub id : ℕ
  pub name : Text
  pub display_name : Text

pub record WebauthnUser : Type 0 where
  pub user : PasskeyUser
  pub credentials : List PasskeyCredential

-- a parsed registration response: the credProps extension and the rest
pub record CreationResponse : Type 0 where
  pub cred_props : Option (Option Bool)
  pub content : Text

pub record WebAuthn (W D : Type 0) : Type 0 where
  -- the user with the credentials as webauthn sees them, then the excluded credential ids
  pub begin_registration : PasskeyUser → List WaCredential → List Text → Exec W (Text × D)
  pub begin_login : PasskeyUser → List WaCredential → Exec W (Text × D)
  pub begin_discoverable_login : Exec W (Text × D)
  pub marshal : D → Result Text
  pub unmarshal : Text → Result D
  pub parse_creation : Text → Result CreationResponse
  pub parse_request : Text → Result Text
  pub create_credential :
      PasskeyUser → List WaCredential → D → CreationResponse → Result WaCredential
  pub validate_login : PasskeyUser → List WaCredential → D → Text → Result WaCredential
  -- The handler is called with a raw id and a user handle. Its state holds the variable that it
  -- assigns, beside the world.
  pub validate_discoverable_login :
      (Text → Text → Exec (ℕ × W) WebauthnUser) → D → Text → Exec (ℕ × W) WaCredential
  -- errors.As for protocol.Error, and its type
  pub category : Error → Text

pub data PasskeyEventKind : Type 0 where
  registration_succeeded registration_rejected registration_challenge_expired : PasskeyEventKind
  login_succeeded login_rejected login_challenge_expired clone_detected : PasskeyEventKind
  credential_deleted credential_deletion_rejected store_failed : PasskeyEventKind

pub record PasskeyEvent : Type 0 where
  pub kind : PasskeyEventKind
  pub user_id : ℕ
  pub operation : Text
  pub diagnostic : Text
  pub at : ℕ

pub record PasskeyService (W D : Type 0) : Type 0 where
  pub wa : WebAuthn W D
  pub store : PasskeyStore W
  pub challenges : ChallengeStore W
  pub max_ceremony_body : ℕ
  pub event_sink : Option (PasskeyEvent → W → W)
  pub now : W → ℕ × W
  pub new_id : W → ℕ × W

abbrev pub to_webauthn_cred : PasskeyCredential → WaCredential
to_webauthn_cred c = record {
  id = c.credential_id;
  public_key = c.public_key;
  attestation_type = c.attestation_type;
  transports = c.transports;
  backup_eligible = c.backup_eligible;
  backup_state = c.backup_state;
  aaguid = c.aaguid;
  sign_count = c.sign_count;
  clone_warning = false;
}

unfoldable pub to_webauthn_creds : List PasskeyCredential → List WaCredential
to_webauthn_creds creds = map to_webauthn_cred creds

-- the text of a uuid, which `id ∷ []` stands for, after its kind
abbrev pub challenge_key : Text → ℕ → Text
challenge_key kind id = kind ++ (58 ∷ id ∷ [])

unfoldable pub cred_props_resident_key : CreationResponse → Bool
cred_props_resident_key response = elim response.cred_props [
  | none ↦ false
  | some none ↦ false
  | some (some resident) ↦ resident
]

module _ {W D : Type 0} (s : PasskeyService W D) where
  unfoldable pub check_ceremony_body_size : Text → Result (Unit {0})
  check_ceremony_body_size body =
      if ltb s.max_ceremony_body (length body)
      then err (wrapped (codes "over the byte limit") (sentinel ceremony_body_too_large))
      else ok tt

  -- readCeremonyBody: no body, or what reading it gives
  unfoldable pub read_ceremony_body : Option (Result Text) → Result Text
  read_ceremony_body none = ok []
  read_ceremony_body (some (ok body)) =
      if ltb s.max_ceremony_body (length body)
      then err (wrapped (codes "over the byte limit") (sentinel ceremony_body_too_large))
      else ok body
  read_ceremony_body (some (err e)) =
      err (wrapped (codes "passkey: reading ceremony response body") e)
