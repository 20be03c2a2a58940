-- ===== src/Memstore/Passkeys/Guard.antt =====
-- What DeleteCredential and ConsumeChallenge of memstore/passkey.go keep.
use native.Mathlib.Decide.{ℕ_discrete}
use sulis.Base.{
  ℕ, suc, ◌<◌, ◌≡◌, ◌≢◌, ◌↔◌, refl, false, none, some, [], ◌∷◌, arith, Option-cases, inl, inr,
}
use sulis.Base.Text.{Text, text_eq_refl}
use sulis.Base.Map.{Map, lookup, delete, DistinctKeys}
use sulis.Base.Dict.{Dict, put, get-put, get-remove}
use sulis.Error.{ok, challenge_not_found}
use sulis.Exec.{fail}
use sulis.Passkey.{PasskeyCredential}
use sulis.Memstore.Passkeys.{count_by_user, delete_credential, save_challenge, consume_challenge}

delete_absent :
    (id : ℕ) (creds : Map PasskeyCredential) → lookup id creds ≡ none → delete id creds ≡ creds
unfolding lookup delete
delete_absent id [] h = refl
delete_absent id ((j, x) ∷ creds) h = ground (arith, delete_absent id creds)

-- One credential of the user fewer, where the deleted one was the user's.
count-delete :
    (user_id id : ℕ) (creds : Map PasskeyCredential) (c : PasskeyCredential)
    → DistinctKeys creds
    → lookup id creds ≡ some c
    → c.user_id ≡ user_id
    → suc (count_by_user user_id (delete id creds)) ≡ count_by_user user_id creds
unfolding count_by_user lookup delete
count-delete user_id id [] c d at own = cc
count-delete user_id id ((j, x) ∷ creds) c d at own =
    ground (arith, count-delete user_id id creds c d.1, delete_absent id creds)

-- As many credentials as before of a user whose the deleted one was not.
count-delete_other :
    (other id : ℕ) (creds : Map PasskeyCredential) (c : PasskeyCredential)
    → DistinctKeys creds
    → lookup id creds ≡ some c
    → c.user_id ≢ other
    → count_by_user other (delete id creds) ≡ count_by_user other creds
unfolding count_by_user lookup delete
count-delete_other other id [] c d at foreign = cc
count-delete_other other id ((j, x) ∷ creds) c d at foreign =
    ground (arith, count-delete_other other id creds c d.1, delete_absent id creds)

-- DeleteCredential without AllowLast succeeds exactly if the credential is the user's own and the user
-- has another one.
delete_credential-ok_iff :
    (user_id id : ℕ) (creds : Map PasskeyCredential)
    → DistinctKeys creds
    → ((delete_credential user_id id false creds).0 ≡ ok tt) ↔ (
        (c : PasskeyCredential) × (lookup id creds ≡ some c)
        × (c.user_id ≡ user_id)
        × (0 < count_by_user user_id (delete id creds)))
unfolding delete_credential
delete_credential-ok_iff user_id id creds d = elim (Option-cases (lookup id creds)) [
  | inl absent ↦ (λ h. ground (arith, absent), λ h. ground (arith, absent))
  | inr (c, there) ↦ (
    λ h.
        (c, there, ground (arith, there), ground (arith, there, count-delete user_id id creds c d)),
    λ h. ground (arith, there, count-delete user_id id creds c d),
  )
]

-- In a map with distinct keys, a user who has a credential keeps one: whatever the user deletes without AllowLast, and whether or not
-- the deletion is refused.
pub delete_credential_keeps_one :
    (user_id other id : ℕ) (creds : Map PasskeyCredential)
    → DistinctKeys creds
    → 0 < count_by_user other creds
    → 0 < count_by_user other (delete_credential user_id id false creds).1
unfolding delete_credential
delete_credential_keeps_one user_id other id creds d has = elim (Option-cases (lookup id creds)) [
  | inl absent ↦ ground (arith, absent)
  | inr (c, there) ↦ elim (ℕ_discrete c.user_id other) [
    | yes own ↦ ground (arith, there, count-delete other id creds c d there own)
    | no foreign ↦ ground (arith, there, count-delete_other other id creds c d there foreign)
  ]
]

-- A challenge is given out once: what SaveChallenge stored under a key is what the next ConsumeChallenge
-- of the key returns, and the one after it finds nothing.
consume_challenge_once :
    (key stored : Text) (challenges : Dict Text)
    → ((consume_challenge key (save_challenge key stored challenges).1).0 ≡ ok stored)
      × (consume_challenge key (consume_challenge key (save_challenge key stored challenges).1).1
          ≡ fail challenge_not_found
              (consume_challenge key (save_challenge key stored challenges).1).1)
unfolding consume_challenge save_challenge
consume_challenge_once key stored challenges =
    let kept = get-put key key stored challenges in
    let gone = get-remove key key (put key stored challenges) in
    (ground (arith, kept, text_eq_refl key), ground (arith, kept, gone, text_eq_refl key))
