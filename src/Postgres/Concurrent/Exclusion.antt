-- ===== src/Postgres/Concurrent/Exclusion.antt =====
-- The advisory lock between the connections of Postgres.Concurrent.
use native.Mathlib.Decide.{ℕ_discrete}
use sulis.Base.{ℕ, ◌≡◌, ◌≢◌, sym, ap, ◌∙◌, some, List, arith}
use sulis.Passkey.{PasskeyCredential}
use sulis.Postgres.{ℤ, Host}
use sulis.Postgres.Concurrent.{
  Phase, System, holds, moved, Step, begins, locks, deletes, commits, rolls_back, saves, renames,
  logs_in, Reach, start, later,
}

-- no two connections hold one lock
abbrev pub IsExclusive : Host → (ℕ → Phase) → Type 0
IsExclusive host phase =
    (i j : ℕ) (k : ℤ) → holds host (phase i) ≡ some k → holds host (phase j) ≡ some k → i ≡ j

moved-IsExclusive :
    (host : Host) (phase : ℕ → Phase) (i : ℕ) (p : Phase)
    → IsExclusive host phase
    → ((j : ℕ) (k : ℤ) → j ≢ i → holds host p ≡ some k → holds host (phase j) ≢ some k)
    → IsExclusive host (moved phase i p)
moved-IsExclusive host phase i p exclusive apart a b k ha hb = elim (ℕ_discrete a i) [
  | yes ai ↦ elim (ℕ_discrete b i) [
    | yes bi ↦ ground (arith, ai, bi)
    | no b≢i ↦ ground (arith, ai, apart b k b≢i)
  ]
  | no a≢i ↦ elim (ℕ_discrete b i) [
    | yes bi ↦ ground (arith, bi, apart a k a≢i)
    | no b≢i ↦ ground (arith, exclusive a b k)
  ]
]

step-IsExclusive :
    (host : Host) (kept_user : ℕ) (s t : System)
    → Step host kept_user s t
    → IsExclusive host s.phase
    → IsExclusive host t.phase
step-IsExclusive host kept_user s _ (begins i user_id id allow_last at guarded) exclusive =
    moved-IsExclusive host s.phase i _ exclusive (λ j k n h. cc)
step-IsExclusive host kept_user s _ (locks i user_id id allow_last at free) exclusive =
    moved-IsExclusive host s.phase i _ exclusive (λ j k n h h'. free j (h' ∙ sym h))
step-IsExclusive host kept_user s _ (deletes i user_id id allow_last at) exclusive =
    moved-IsExclusive host s.phase i _ exclusive
      (λ j k n h h'. n (exclusive j i k h' (ap (holds host) at ∙ h)))
step-IsExclusive host kept_user s _ (commits i user_id id allow_last changed at some_row)
      exclusive =
    moved-IsExclusive host s.phase i _ exclusive (λ j k n h. cc)
step-IsExclusive host kept_user s _ (rolls_back i) exclusive =
    moved-IsExclusive host s.phase i _ exclusive (λ j k n h. cc)
step-IsExclusive host kept_user s _ (saves cred new) exclusive = exclusive
step-IsExclusive host kept_user s _ (renames user_id id name) exclusive = exclusive
step-IsExclusive host kept_user s _ (logs_in credential_id sign_count backup_state at) exclusive =
    exclusive

-- Whatever the connections do, no two of them hold the advisory lock of one key.
pub reach-IsExclusive :
    (host : Host) (kept_user : ℕ) (rows : List PasskeyCredential) (s : System)
    → Reach host kept_user rows s
    → IsExclusive host s.phase
reach-IsExclusive host kept_user rows _ start = λ i j k hi hj. cc
reach-IsExclusive host kept_user rows _ (later {s} {t} reach step) =
    step-IsExclusive host kept_user s t step (reach-IsExclusive host kept_user rows s reach)
