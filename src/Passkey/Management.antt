-- ===== src/Passkey/Management.antt =====
-- DeleteCredential of passkey/passkey.go.
use sulis.Base.{ℕ, Bool, ◌||◌, [], if◌then◌else◌}
use sulis.Base.Text.{codes}
use sulis.Error.{ok, err, errors_is, passkey_not_found, last_credential}
use sulis.Exec.{Exec, throw, attempt, ◌>>=◌, ◌>>◌}
use sulis.Passkey.{PasskeyService, PasskeyEventKind}
use sulis.Passkey.Events.{event, emit, emit_diag, deletion_diagnostic}

module _ {W D : Type 0} (s : PasskeyService W D) where
  unfoldable pub delete_credential : ℕ → ℕ → Bool → Exec W Unit
  unfolding emit emit_diag
  delete_credential user_id id allow_last = do
    deleted ← attempt (s.store.delete_credential user_id id allow_last)
    elim deleted [
      | ok _ ↦ emit s (event PasskeyEventKind.credential_deleted user_id [] [])
      | err e ↦ do
        if errors_is e passkey_not_found || errors_is e last_credential
            then emit_diag s (event PasskeyEventKind.credential_deletion_rejected user_id [] []) e
                deletion_diagnostic
            else emit s (event PasskeyEventKind.store_failed user_id (codes "delete_credential") [])
        throw e
    ]
