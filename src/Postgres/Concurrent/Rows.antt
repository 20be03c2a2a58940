-- ===== src/Postgres/Concurrent/Rows.antt =====
-- The rows of passkey_credentials under the statements of Postgres.Concurrent.
use sulis.Base.{
  ℕ, suc, ◌≤◌, ◌<◌, ◌≡◌, ◌≢◌, refl, sym, subst, ◌∙◌, some, Bool, true, false, List, [], ◌∷◌, ◌++◌,
  arith, if◌then◌else◌,
}
use sulis.Base.Text.{Text}
use sulis.Passkey.{PasskeyCredential}
use sulis.Sqlite.{any, count_rows, update_rows, delete_rows, outcome}
use sulis.Sqlite.Passkeys.{
  has_id, is_owned, owned_by, deletable, may_delete, bars_save, upsert, has_credential_id,
}
use sulis.Postgres.{affected}
use sulis.Postgres.Passkeys.{
  delete_statement, save_credential, rename_credential, update_credential_after_login,
}
use sulis.Postgres.Concurrent.{left_by, removed_by}

-- no two rows have one id
unfoldable pub IsUnique : List PasskeyCredential → Type 0
IsUnique [] = Unit
IsUnique (row ∷ rows) = (any (has_id row.id) rows ≡ false) × IsUnique rows

abbrev pub count_of : ℕ → List PasskeyCredential → ℕ
count_of user_id rows = count_rows (owned_by user_id) rows

any-delete_rows :
    (id : ℕ) (p : PasskeyCredential → Bool) (rows : List PasskeyCredential)
    → any (has_id id) rows ≡ false
    → any (has_id id) (delete_rows p rows) ≡ false
unfolding any delete_rows
any-delete_rows id p [] h = refl
any-delete_rows id p (row ∷ rows) h = ground (arith, any-delete_rows id p rows)

branch :
    (test : Bool) (rows rows' : List PasskeyCredential)
    → IsUnique rows
    → IsUnique rows'
    → IsUnique (if test then rows else rows')
branch true rows rows' u u' = u
branch false rows rows' u u' = u'

pub delete_rows-IsUnique :
    (p : PasskeyCredential → Bool) (rows : List PasskeyCredential)
    → IsUnique rows
    → IsUnique (delete_rows p rows)
unfolding IsUnique delete_rows
delete_rows-IsUnique p [] u = tt
delete_rows-IsUnique p (row ∷ rows) (new, u) =
    let rest = delete_rows-IsUnique p rows u in
    branch (p row) _ _ rest (any-delete_rows row.id p rows new, rest)

any-append :
    (id : ℕ) (cred : PasskeyCredential) (rows : List PasskeyCredential)
    → any (has_id id) rows ≡ false
    → cred.id ≢ id
    → any (has_id id) (rows ++ (cred ∷ [])) ≡ false
unfolding any
any-append id cred [] h n = ground arith
any-append id cred (row ∷ rows) h n = ground (arith, any-append id cred rows)

append-IsUnique :
    (cred : PasskeyCredential) (rows : List PasskeyCredential)
    → any (has_id cred.id) rows ≡ false
    → IsUnique rows
    → IsUnique (rows ++ (cred ∷ []))
unfolding IsUnique any
append-IsUnique cred [] h u = (refl, tt)
append-IsUnique cred (row ∷ rows) h (new, u) =
    (any-append row.id cred rows new (ground arith), append-IsUnique cred rows (ground arith) u)

module _ (p : PasskeyCredential → Bool) (f : PasskeyCredential → PasskeyCredential) where
  any-update_rows :
      (id : ℕ) (rows : List PasskeyCredential)
      → ((row : PasskeyCredential) → (f row).id ≡ row.id)
      → any (has_id id) (update_rows p f rows) ≡ any (has_id id) rows
  unfolding any update_rows
  any-update_rows id [] same = refl
  any-update_rows id (row ∷ rows) same = ground (arith, any-update_rows id rows same, same row)

  update_rows-IsUnique :
      (rows : List PasskeyCredential)
      → ((row : PasskeyCredential) → (f row).id ≡ row.id)
      → IsUnique rows
      → IsUnique (update_rows p f rows)
  unfolding IsUnique update_rows
  update_rows-IsUnique [] same u = tt
  update_rows-IsUnique (row ∷ rows) same (new, u) =
      let rest = update_rows-IsUnique rows same u in
      branch (p row) _ _ (ground (arith, any-update_rows row.id rows same, same row), rest)
        (any-update_rows row.id rows same ∙ new, rest)

  count-update_rows :
      (user_id : ℕ) (rows : List PasskeyCredential)
      → ((row : PasskeyCredential) → (f row).user_id ≡ row.user_id)
      → count_of user_id (update_rows p f rows) ≡ count_of user_id rows
  unfolding count_rows update_rows
  count-update_rows user_id [] same = refl
  count-update_rows user_id (row ∷ rows) same =
      ground (arith, count-update_rows user_id rows same, same row)

count-append :
    (user_id : ℕ) (cred : PasskeyCredential) (rows : List PasskeyCredential)
    → count_of user_id rows ≤ count_of user_id (rows ++ (cred ∷ []))
unfolding count_rows
count-append user_id cred [] = omega arith
count-append user_id cred (row ∷ rows) = ground (arith, count-append user_id cred rows)

absent-delete_rows :
    (user_id id : ℕ) (rows : List PasskeyCredential)
    → any (has_id id) rows ≡ false
    → delete_rows (is_owned user_id id) rows ≡ rows
unfolding any delete_rows
absent-delete_rows user_id id [] h = refl
absent-delete_rows user_id id (row ∷ rows) h = ground (arith, absent-delete_rows user_id id rows)

-- A user who loses a credential loses one.
pub count-delete_rows :
    (user_id id : ℕ) (rows : List PasskeyCredential)
    → IsUnique rows
    → count_of user_id rows ≤ suc (count_of user_id (delete_rows (is_owned user_id id) rows))
unfolding IsUnique count_rows delete_rows
count-delete_rows user_id id [] u = omega arith
count-delete_rows user_id id (row ∷ rows) (new, u) =
    ground (arith, count-delete_rows user_id id rows u, absent-delete_rows user_id id rows)

-- The others lose none.
pub count-delete_rows_other :
    (kept_user user_id id : ℕ) (rows : List PasskeyCredential)
    → user_id ≢ kept_user
    → count_of kept_user (delete_rows (is_owned user_id id) rows) ≡ count_of kept_user rows
unfolding count_rows delete_rows
count-delete_rows_other kept_user user_id id [] n = refl
count-delete_rows_other kept_user user_id id (row ∷ rows) n =
    ground (arith, count-delete_rows_other kept_user user_id id rows n)

count-refused :
    (user_id id : ℕ) (may : Bool) (rows : List PasskeyCredential)
    → may ≡ false
    → count_rows (deletable user_id id may) rows ≡ 0
unfolding count_rows
count-refused user_id id may [] h = refl
count-refused user_id id may (row ∷ rows) h = ground (arith, count-refused user_id id may rows h)

-- The DELETE without AllowLast removes a row only if the user has another.
pub removed_by-guarded :
    (user_id id : ℕ) (rows : List PasskeyCredential)
    → removed_by user_id id false rows ≢ 0
    → 1 < count_of user_id rows
unfolding delete_statement outcome
removed_by-guarded user_id id rows h =
    ground (arith, count-refused user_id id (may_delete user_id false rows) rows)

-- the rows are unique still, and the user has not lost a credential
abbrev pub Keeps : ℕ → List PasskeyCredential → List PasskeyCredential → Type 0
Keeps user_id rows after = IsUnique after × (count_of user_id rows ≤ count_of user_id after)

left_by-save_credential :
    (cred : PasskeyCredential) (rows : List PasskeyCredential)
    → any (has_id cred.id) rows ≡ false
    → left_by (save_credential cred) rows
      ≡ (if any (bars_save cred) rows then rows else rows ++ (cred ∷ []))
unfolding save_credential outcome upsert
left_by-save_credential cred rows new = ground (arith, new)

branch-Keeps :
    (user_id : ℕ) (test : Bool) (rows left right : List PasskeyCredential)
    → Keeps user_id rows left
    → Keeps user_id rows right
    → Keeps user_id rows (if test then left else right)
branch-Keeps user_id true rows left right k k' = k
branch-Keeps user_id false rows left right k k' = k'

update_rows-Keeps :
    (user_id : ℕ) (p : PasskeyCredential → Bool) (f : PasskeyCredential → PasskeyCredential)
    (rows after : List PasskeyCredential)
    → after ≡ update_rows p f rows
    → ((row : PasskeyCredential) → (f row).id ≡ row.id)
    → ((row : PasskeyCredential) → (f row).user_id ≡ row.user_id)
    → IsUnique rows
    → Keeps user_id rows after
update_rows-Keeps user_id p f rows after e same_id same_user u =
    subst (Keeps user_id rows) (sym e) (
      update_rows-IsUnique p f rows same_id u,
      ground (arith, count-update_rows p f user_id rows same_user),
    )

pub save_credential-Keeps :
    (user_id : ℕ) (cred : PasskeyCredential) (rows : List PasskeyCredential)
    → IsUnique rows
    → any (has_id cred.id) rows ≡ false
    → Keeps user_id rows (left_by (save_credential cred) rows)
save_credential-Keeps user_id cred rows u new =
    subst (Keeps user_id rows) (sym (left_by-save_credential cred rows new)) (
      branch-Keeps user_id (any (bars_save cred) rows) rows _ _ (u, omega arith)
        (append-IsUnique cred rows new u, count-append user_id cred rows))

pub rename_credential-Keeps :
    (kept_user user_id id : ℕ) (name : Text) (rows : List PasskeyCredential)
    → IsUnique rows
    → Keeps kept_user rows (left_by (rename_credential user_id id name) rows)
unfolding rename_credential outcome affected
rename_credential-Keeps kept_user user_id id name rows u =
    update_rows-Keeps kept_user (is_owned user_id id) (λ row. record row { name = name }) rows _
      (ground arith) (λ row. refl) (λ row. refl) u

pub login-Keeps :
    (kept_user : ℕ) (credential_id : Text) (sign_count : ℕ) (backup_state : Bool) (t : ℕ)
    (rows : List PasskeyCredential)
    → IsUnique rows
    → Keeps kept_user rows
        (left_by (update_credential_after_login credential_id sign_count backup_state t) rows)
unfolding update_credential_after_login outcome affected
login-Keeps kept_user credential_id sign_count backup_state t rows u =
    update_rows-Keeps kept_user (has_credential_id credential_id)
      (λ row. record row {
        sign_count = sign_count;
        backup_state = backup_state;
        last_used_at = some t;
      })
      rows _ (ground arith) (λ row. refl) (λ row. refl) u
