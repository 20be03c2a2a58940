-- ===== src/Postgres/Concurrent/Progress.antt =====
-- A DeleteCredential that waits for its advisory lock, among the connections of Postgres.Concurrent.
use native.Mathlib.Decide.{ℕ_discrete, dec_lt}
use sulis.Base.{
  ℕ, zero, suc, ◌+◌, ◌≤◌, ◌<◌, ◌≡◌, ◌≢◌, refl, sym, ap, ◌∙◌, Bool, some, none, Option, List, arith,
  ◌⊎◌, inl, inr,
}
use sulis.Passkey.{PasskeyCredential}
use sulis.Postgres.{ℤ, pos, negsuc, Host}
use sulis.Postgres.Concurrent.{
  Phase, resting, begun, locked, deleted, System, holds, moved, Step, begins, locks, deletes,
  commits, rolls_back, saves, renames, logs_in, Reach, start, later, removed_by, key_of,
}
use sulis.Postgres.Concurrent.Exclusion.{reach-IsExclusive}

ℤ-discrete : (a b : ℤ) → Dec (a ≡ b)
ℤ-discrete (pos m) (pos n) = elim (ℕ_discrete m n) [
  | yes e ↦ yes (ap pos e)
  | no d ↦ no (λ e. d (ground (arith, e)))
]
ℤ-discrete (pos m) (negsuc n) = no (λ e. cc)
ℤ-discrete (negsuc m) (pos n) = no (λ e. cc)
ℤ-discrete (negsuc m) (negsuc n) = elim (ℕ_discrete m n) [
  | yes e ↦ yes (ap negsuc e)
  | no d ↦ no (λ e. d (ground (arith, e)))
]

holds_key : (o : Option ℤ) (k : ℤ) → Dec (o ≡ some k)
holds_key none k = no (λ e. cc)
holds_key (some a) k = elim (ℤ-discrete a k) [
  | yes e ↦ yes (ap some e)
  | no d ↦ no (λ e. d (ground (arith, e)))
]

module _ (host : Host) (kept_user : ℕ) where
  -- No call fails at the step: no transaction is rolled back but that of a DELETE that removed no row.
  abbrev pub IsSound : (s t : System) → Step host kept_user s t → Type 0
  IsSound s _ (begins i user_id id allow_last at guarded) = Unit
  IsSound s _ (locks i user_id id allow_last at free) = Unit
  IsSound s _ (deletes i user_id id allow_last at) = Unit
  IsSound s _ (commits i user_id id allow_last changed at some_row) = Unit
  IsSound s _ (rolls_back i) =
      (user_id : ℕ) × (id : ℕ) × (allow_last : Bool) × (s.phase i ≡ deleted user_id id allow_last 0)
  IsSound s _ (saves cred new) = Unit
  IsSound s _ (renames user_id id name) = Unit
  IsSound s _ (logs_in credential_id sign_count backup_state at) = Unit

  -- steps of the connections, at none of which a call fails
  pub data Steps (s : System) : System → Type 0 where
    done : Steps s s
    next :
        {t u : System} → Steps s t → (step : Step host kept_user t u) → IsSound t u step → Steps s u

  -- from this connection on, all are at rest
  abbrev pub IsQuietFrom : ℕ → (ℕ → Phase) → Type 0
  IsQuietFrom n phase = (j : ℕ) → n ≤ j → phase j ≡ resting

  quiet-moved :
      (n i : ℕ) (phase : ℕ → Phase) (p : Phase)
      → IsQuietFrom n phase
      → (m : ℕ) × IsQuietFrom m (moved phase i p)
  quiet-moved n i phase p quiet = (n + suc i, λ j le. ground (arith, quiet j))

  reach-quiet :
      (rows : List PasskeyCredential) (s : System)
      → Reach host kept_user rows s
      → (n : ℕ) × IsQuietFrom n s.phase
  reach-quiet rows _ start = (0, λ j le. refl)
  reach-quiet rows _ (later {s} {t} reach step) =
      let (n, quiet) = reach-quiet rows s reach in go s t step n quiet
    where
      go :
          (s t : System)
          → Step host kept_user s t
          → (n : ℕ) → IsQuietFrom n s.phase
          → (m : ℕ) × IsQuietFrom m t.phase
      go s _ (begins i user_id id allow_last at guarded) n quiet = quiet-moved n i s.phase _ quiet
      go s _ (locks i user_id id allow_last at free) n quiet = quiet-moved n i s.phase _ quiet
      go s _ (deletes i user_id id allow_last at) n quiet = quiet-moved n i s.phase _ quiet
      go s _ (commits i user_id id allow_last changed at some_row) n quiet =
          quiet-moved n i s.phase _ quiet
      go s _ (rolls_back i) n quiet = quiet-moved n i s.phase _ quiet
      go s _ (saves cred new) n quiet = (n, quiet)
      go s _ (renames user_id id name) n quiet = (n, quiet)
      go s _ (logs_in credential_id sign_count backup_state at) n quiet = (n, quiet)

  -- the connection has come to the end of its call, and the others stand where they stood
  abbrev pub HasEnded : ℕ → System → System → Type 0
  HasEnded j s t = Steps s t × (t.phase j ≡ resting) × ((m : ℕ) → m ≢ j → t.phase m ≡ s.phase m)

  -- A DELETE that removed a row is committed, and one that removed none is refused.
  deleted-ends :
      (s : System) (j user_id id : ℕ) (allow_last : Bool) (changed : ℕ)
      → s.phase j ≡ deleted user_id id allow_last changed
      → (t : System) × HasEnded j s t
  deleted-ends s j user_id id allow_last changed at = elim (ℕ_discrete changed 0) [
    | yes none_gone ↦ (
      _,
      (
        next done (rolls_back j) (user_id, id, allow_last, ground (arith, at, none_gone)),
        ground arith,
        λ m n. ground (arith, n),
      ),
    )
    | no some_gone ↦ (
      _,
      (
        next done (commits j user_id id allow_last changed at some_gone) tt,
        ground arith,
        λ m n. ground (arith, n),
      ),
    )
  ]

  Steps-after :
      {s t u : System} (step : Step host kept_user s t) → IsSound s t step → Steps t u → Steps s u
  Steps-after step sound done = next done step sound
  Steps-after step sound (next steps last fine) = next (Steps-after step sound steps) last fine

  Steps-append : {s t u : System} → Steps s t → Steps t u → Steps s u
  Steps-append steps done = steps
  Steps-append steps (next more last fine) = next (Steps-append steps more) last fine

  holder-ends :
      (s : System) (j : ℕ) (k : ℤ) (p : Phase)
      → s.phase j ≡ p
      → holds host p ≡ some k
      → (t : System) × HasEnded j s t
  holder-ends s j k resting at h = cc
  holder-ends s j k (begun user_id id allow_last) at h = cc
  holder-ends s j k (locked user_id id allow_last) at h =
      let changed = removed_by user_id id allow_last s.rows in
      let after : System = record s {
        phase = moved s.phase j (deleted user_id id allow_last changed);
      } in
      let (t, (steps, ended, others)) =
        deleted-ends after j user_id id allow_last changed (ground arith) in
      (
        t,
        (
          Steps-after (deletes j user_id id allow_last at) tt steps,
          ended,
          λ m n. ground (arith, others m n, n),
        ),
      )
  holder-ends s j k (deleted user_id id allow_last changed) at h =
      deleted-ends s j user_id id allow_last changed at

  -- A connection below n holds the lock, or none there does.
  find_holder :
      (phase : ℕ → Phase) (k : ℤ) (n : ℕ)
      → ((j : ℕ) × (holds host (phase j) ≡ some k))
        ⊎ ((j : ℕ) → j < n → holds host (phase j) ≢ some k)
  find_holder phase k zero = inr (λ j lt. absurd (omega arith))
  find_holder phase k (suc n) = elim (holds_key (holds host (phase n)) k) [
    | yes h ↦ inl (n, h)
    | no free ↦ elim (find_holder phase k n) [
      | inl holder ↦ inl holder
      | inr frees ↦ inr (λ j lt. elim (ℕ_discrete j n) [
        | yes e ↦ λ h. free (ap (λ m. holds host (phase m)) (sym e) ∙ h)
        | no other ↦ frees j (omega arith)
      ])
    ]
  ]

  waiting-locks :
      (s : System) (i user_id id : ℕ) (allow_last : Bool)
      → s.phase i ≡ begun user_id id allow_last
      → ((j : ℕ) → holds host (s.phase j) ≢ some (key_of host user_id))
      → (t : System) × Steps s t × (t.phase i ≡ locked user_id id allow_last)
  waiting-locks s i user_id id allow_last at free =
      (_, next done (locks i user_id id allow_last at free) tt, ground arith)

  -- Whatever state many connections have come to, a connection that waits for the advisory lock of its
  -- user can get it without any call failing: by steps none of which rolls a transaction back, but that of
  -- a DELETE that removed no row.
  pub waiting_gets_lock :
      (rows : List PasskeyCredential) (s : System) (i user_id id : ℕ) (allow_last : Bool)
      → Reach host kept_user rows s
      → s.phase i ≡ begun user_id id allow_last
      → (t : System) × Steps s t × (t.phase i ≡ locked user_id id allow_last)
  waiting_gets_lock rows s i user_id id allow_last reach at =
      let key = key_of host user_id in
      let (n, quiet) = reach-quiet rows s reach in
      elim (find_holder s.phase key n) [
        | inl (j, h) ↦
            let (t, (steps, ended, others)) = holder-ends s j key (s.phase j) refl h in
            let i≢j : i ≢ j = λ e. ground (arith, e, at, h) in
            let (u, last, got) =
              waiting-locks t i user_id id allow_last (others i i≢j ∙ at) (λ m hm.
                elim (ℕ_discrete m j) [
                  | yes e ↦ ground (arith, e, ended, hm)
                  | no m≢j ↦ m≢j (
                      reach-IsExclusive host kept_user rows s reach m j key
                        (ap (holds host) (sym (others m m≢j)) ∙ hm) h)
                ]) in
            (u, Steps-append steps last, got)
        | inr frees ↦ waiting-locks s i user_id id allow_last at (λ j h. elim (dec_lt j n) [
          | yes lt ↦ frees j lt h
          | no beyond ↦ ground (arith, quiet j (omega arith), h)
        ])
      ]
