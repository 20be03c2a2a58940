-- ===== src/Tests/Passkeys.antt =====
-- Examples for the passkeys: a credential, its store, and a login.
use sulis.Base.{
  is_some, ◌↔◌, ℕ, ◌+◌, ◌≡◌, ◌≢◌, ◌<◌, ◌++◌, if◌then◌else◌, refl, Bool, true, false, List, [], ◌∷◌,
  none, some, arith,
}
use sulis.Base.Text
use sulis.Base.Text.{Text, codes, text_eq}
use sulis.Base.Map.{Map, lookup, delete}
use sulis.Base.Dict.{Dict, get}
use sulis.Error.{Result, ok, err, sentinel, challenge_failed}
use sulis.Exec.{Exec, pure, fail}
use sulis.Passkey.{
  PasskeyCredential, PasskeyStore, ChallengeStore, WaCredential, PasskeyUser, WebAuthn,
  PasskeyService, CreationResponse, to_webauthn_creds,
}
use sulis.Passkey.Login.{finish_login_response}
use sulis.Passkey.Login
use sulis.Passkey.Login.Gates.{Accepted, finish_login_response_sound}
use sulis.Passkey.Construction
use sulis.Passkey.Construction.{
  Ceremonies, RelyingParty, PasskeySettings, apply_options, default_settings, library_config,
  new_service, with_resident_key, with_max_ceremony_body,
}
use sulis.Passkey.Construction.Acceptance.{IsNamed, IsAccepted, new_service-starts_iff}
use sulis.Memstore.Passkeys
use sulis.Memstore.Passkeys.{count_by_user, delete_credential}
use sulis.Memstore.Passkeys.Guard.{delete_credential_keeps_one}

abbrev pub phone : PasskeyCredential
phone = record {
  id = 70;
  user_id = 7;
  credential_id = codes "cred";
  public_key = codes "key";
  attestation_type = [];
  aaguid = [];
  sign_count = 4;
  name = codes "phone";
  transports = [];
  backup_eligible = false;
  backup_state = false;
  last_used_at = none;
  discoverable = true;
  created_at = 1;
}

delete_credential_keeps_one_example :
    0 < count_by_user 7 (delete_credential 7 70 false ((70, phone) ∷ [])).1
unfolding lookup count_by_user
delete_credential_keeps_one_example =
    delete_credential_keeps_one 7 7 70 ((70, phone) ∷ []) (refl, tt) (omega arith)

-- the two stores, and a clock that stands still
abbrev Store : Type 0
Store = Map PasskeyCredential × Dict Text

abbrev on_creds : {A : Type 0} → Exec (Map PasskeyCredential) A → Exec Store A
on_creds m (creds, challenges) = let (r, creds') = m creds in (r, (creds', challenges))

abbrev on_challenges : {A : Type 0} → Exec (Dict Text) A → Exec Store A
on_challenges m (creds, challenges) =
    let (r, challenges') = m challenges in (r, (creds, challenges'))

-- the credential that an assertion proves, with the next sign count
abbrev next_count : List WaCredential → Result WaCredential
next_count [] = err (sentinel challenge_failed)
next_count (c ∷ creds) = ok (record c { sign_count = c.sign_count + 1 })

abbrev library : WebAuthn Store Text
library = record {
  begin_registration = λ user creds excluded. pure ([], []);
  begin_login = λ user creds. pure ([], []);
  begin_discoverable_login = pure ([], []);
  marshal = ok;
  unmarshal = ok;
  parse_creation = λ body. ok (record { cred_props = none; content = body });
  parse_request = ok;
  create_credential = λ user creds session response. next_count creds;
  validate_login = λ user creds session response.
      if Text.text_eq session response then next_count creds else err (sentinel challenge_failed);
  validate_discoverable_login = λ resolve session response. fail challenge_failed;
  category = λ e. [];
}

abbrev passkeys : PasskeyService Store Text
passkeys = record {
  wa = library;
  store = record {
    save_credential = λ cred. on_creds (Passkeys.save_credential cred);
    get_credentials_by_user_id = λ id. on_creds (Passkeys.get_credentials_by_user_id id);
    get_credential_by_id = λ id. on_creds (Passkeys.get_credential_by_id id);
    update_credential_after_login =
        λ id count state t. on_creds (Passkeys.update_credential_after_login id count state t);
    delete_credential = λ user id last. on_creds (Passkeys.delete_credential user id last);
    delete_credentials_by_user_id = λ id. on_creds (Passkeys.delete_credentials_by_user_id id);
    rename_credential = λ user id name. on_creds (Passkeys.rename_credential user id name);
  };
  challenges = record {
    save_challenge = λ key stored. on_challenges (Passkeys.save_challenge key stored);
    consume_challenge = λ key. on_challenges (Passkeys.consume_challenge key);
  };
  max_ceremony_body = 100;
  event_sink = none;
  now = λ w. (50, w);
  new_id = λ w. (1, w);
}

abbrev ann_key : PasskeyUser
ann_key = record { id = 7; name = codes "ann"; display_name = codes "Ann" }

abbrev stored : Store
stored = ((70, phone) ∷ [], (codes "login:" ++ (1 ∷ []), codes "signed") ∷ [])

logged_in : finish_login_response passkeys ann_key 1 (codes "signed") stored ≡ (
  ok (record phone { sign_count = 5; last_used_at = some 50 }),
  (finish_login_response passkeys ann_key 1 (codes "signed") stored).1,
)
unfolding finish_login_response sulis.Passkey.check_ceremony_body_size
    Passkeys.get_credentials_by_user_id Login.take_challenge Passkeys.consume_challenge get
    Text.text_eq Login.open_session to_webauthn_creds sulis.Base.Map.select
    Login.finish_login_credential Passkeys.update_credential_after_login sulis.Base.Map.find
    Passkeys.get_credential_by_id sulis.Base.Map.insert
logged_in = refl

finish_login_response_sound_example : Accepted passkeys ann_key 1 (codes "signed") stored
finish_login_response_sound_example =
    finish_login_response_sound passkeys ann_key 1 (codes "signed") stored
      (finish_login_response passkeys ann_key 1 (codes "signed") stored).1
      (record phone { sign_count = 5; last_used_at = some 50 }) logged_in

-- a library that refuses a name that is no domain
abbrev ceremonies : Ceremonies Store Text
ceremonies = record {
  verification = record {
    required = codes "required";
    preferred = codes "preferred";
    discouraged = codes "discouraged";
  };
  residence = record {
    required = codes "required";
    preferred = codes "preferred";
    discouraged = codes "discouraged";
  };
  new_webauthn = λ config.
      if text_eq config.party.id (codes "http://")
      then err (sentinel challenge_failed)
      else ok library;
  quote = λ text. text;
  now = passkeys.now;
  new_id = passkeys.new_id;
}

abbrev party : RelyingParty
party = record {
  display_name = codes "App";
  id = codes "app.org";
  origins = codes "https://app.org" ∷ [];
}

abbrev chosen_options : List (PasskeySettings Store → PasskeySettings Store)
chosen_options = with_resident_key (codes "preferred") ∷ with_max_ceremony_body 100 ∷ []

new_service-starts_iff_example :
    let chosen = apply_options chosen_options (default_settings ceremonies) in
    ((s : PasskeyService Store Text) × (new_service ceremonies
          (some passkeys.store)
          (some passkeys.challenges)
          party
          chosen_options
        ≡ ok s)
      × (some passkeys.store ≡ some s.store)
      × (some passkeys.challenges ≡ some s.challenges)
      × (s.max_ceremony_body ≡ chosen.max_ceremony_body)
      × (ceremonies.new_webauthn (library_config ceremonies party chosen) ≡ ok s.wa))
    ↔ ((is_some (some passkeys.store) ≡ true)
        × (is_some (some passkeys.challenges) ≡ true)
        × IsNamed party
        × IsAccepted ceremonies chosen
        × ((wa : WebAuthn Store Text) × (ceremonies.new_webauthn
                (library_config ceremonies party chosen)
              ≡ ok wa)))
new_service-starts_iff_example =
    new_service-starts_iff ceremonies (some passkeys.store) (some passkeys.challenges) party
      chosen_options

-- Without an option, a relying party with an id, a name and an origin gets its service.
started :
    new_service ceremonies (some passkeys.store) (some passkeys.challenges) party []
    ≡ ok (record passkeys { max_ceremony_body = 65536 })
unfolding new_service Construction.check_party Construction.check_settings apply_options text_eq
started = refl
