-- ===== src/Memstore/Passkeys.antt =====
-- memstore/passkey.go: the credentials by their own ids, and the challenges by their keys. A clone of a
-- credential is a value here.
pub mod Guard
use sulis.Base.{
  ℕ, suc, Bool, ◌&&◌, ◌||◌, not, Option, none, some, List, [], ◌∷◌, leb, ◌==◌, if◌then◌else◌,
}
use sulis.Base.Text.{Text, text_eq}
use sulis.Base.Map.{Map, lookup, insert, delete, find, remove_if, select}
use sulis.Base.Dict.{Dict, get, put, remove}
use sulis.Error.{ok, err, passkey_not_found, last_credential, challenge_not_found}
use sulis.Exec.{Exec, pure, fail}
use sulis.Passkey.{PasskeyCredential}

unfoldable pub save_credential : PasskeyCredential → Exec (Map PasskeyCredential) Unit
save_credential cred creds = pure tt (insert cred.id cred creds)

abbrev pub owned_by : ℕ → ℕ → PasskeyCredential → Bool
owned_by user_id id c = c.user_id == user_id

unfoldable pub get_credentials_by_user_id :
    ℕ → Exec (Map PasskeyCredential) (List PasskeyCredential)
get_credentials_by_user_id user_id creds = pure (select (owned_by user_id) creds) creds

abbrev pub has_credential_id : Text → ℕ → PasskeyCredential → Bool
has_credential_id credential_id id c = text_eq c.credential_id credential_id

-- the key of the credential, with the credential
unfoldable pub by_credential_id : Text → Map PasskeyCredential → Option (ℕ × PasskeyCredential)
by_credential_id credential_id creds = find (has_credential_id credential_id) creds

unfoldable pub get_credential_by_id : Text → Exec (Map PasskeyCredential) PasskeyCredential
unfolding by_credential_id
get_credential_by_id credential_id creds = elim (by_credential_id credential_id creds) [
  | none ↦ fail passkey_not_found creds
  | some (id, c) ↦ pure c creds
]

unfoldable pub update_credential_after_login :
    Text → ℕ → Bool → ℕ → Exec (Map PasskeyCredential) Unit
unfolding by_credential_id
update_credential_after_login credential_id sign_count backup_state t creds =
    elim (by_credential_id credential_id creds) [
      | none ↦ fail passkey_not_found creds
      | some (id, c) ↦ pure tt (
          insert id
            (record c {
              sign_count = sign_count;
              backup_state = backup_state;
              last_used_at = some t;
            })
            creds)
    ]

unfoldable pub count_by_user : ℕ → Map PasskeyCredential → ℕ
count_by_user user_id [] = 0
count_by_user user_id ((id, c) ∷ creds) =
    let n = count_by_user user_id creds in if c.user_id == user_id then suc n else n

unfoldable pub delete_credential : ℕ → ℕ → Bool → Exec (Map PasskeyCredential) Unit
delete_credential user_id id allow_last creds = elim (lookup id creds) [
  | none ↦ fail passkey_not_found creds
  | some c ↦
      if not (c.user_id == user_id)
      then fail passkey_not_found creds
      else if not allow_last && leb (count_by_user user_id creds) 1
      then fail last_credential creds
      else pure tt (delete id creds)
]

unfoldable pub delete_credentials_by_user_id : ℕ → Exec (Map PasskeyCredential) Unit
delete_credentials_by_user_id user_id creds = pure tt (remove_if (owned_by user_id) creds)

unfoldable pub rename_credential : ℕ → ℕ → Text → Exec (Map PasskeyCredential) Unit
rename_credential user_id id name creds = elim (lookup id creds) [
  | none ↦ fail passkey_not_found creds
  | some c ↦
      if not (c.user_id == user_id)
      then fail passkey_not_found creds
      else pure tt (insert id (record c { name = name }) creds)
]

unfoldable pub save_challenge : Text → Text → Exec (Dict Text) Unit
save_challenge key session_data challenges = pure tt (put key session_data challenges)

unfoldable pub consume_challenge : Text → Exec (Dict Text) Text
consume_challenge key challenges = elim (get key challenges) [
  | none ↦ fail challenge_not_found challenges
  | some stored ↦ pure stored (remove key challenges)
]
