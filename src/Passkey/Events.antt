-- ===== src/Passkey/Events.antt =====
-- passkey/events.go: how the service reports to its sink.
use sulis.Base.{ℕ, none, some, [], ◌==◌, if◌then◌else◌}
use sulis.Base.Text.{Text, codes}
use sulis.Error.{Error, ok, err, errors_is, passkey_not_found, last_credential}
use sulis.Exec.{Exec, pure, total, attempt, throw, ◌>>=◌, ◌>>◌}
use sulis.Passkey.{PasskeyEvent, PasskeyEventKind, PasskeyService}

-- an event as the methods build it: its time is filled in by `emit`
abbrev pub event : PasskeyEventKind → ℕ → Text → Text → PasskeyEvent
event kind user_id operation diagnostic = record {
  kind = kind;
  user_id = user_id;
  operation = operation;
  diagnostic = diagnostic;
  at = 0;
}

unfoldable pub deletion_diagnostic : Error → Text
deletion_diagnostic e =
    if errors_is e passkey_not_found
    then codes "not_found"
    else if errors_is e last_credential
    then codes "last_credential"
    else codes "unknown"

module _ {W D : Type 0} (s : PasskeyService W D) where
  unfoldable pub emit : PasskeyEvent → Exec W Unit
  emit e = elim s.event_sink [
    | none ↦ pure tt
    | some sink ↦ do
      at ← if e.at == 0 then total s.now else pure e.at
      total (λ w. (tt, sink (record e { at = at }) w))
  ]

  unfoldable pub emit_diag : PasskeyEvent → Error → (Error → Text) → Exec W Unit
  unfolding emit
  emit_diag e failure diagnose = elim s.event_sink [
    | none ↦ pure tt
    | some _ ↦ emit (record e { diagnostic = diagnose failure })
  ]

  -- a call of a store that is reported if it fails
  abbrev pub storing : {A : Type 0} → ℕ → Text → Exec W A → Exec W A
  storing user_id operation m = do
    r ← attempt m
    elim r [
      | ok a ↦ pure a
      | err e ↦ do emit (event PasskeyEventKind.store_failed user_id operation []); throw e
    ]
