-- ===== src/RateLimit/Bound.antt =====
-- How many attempts Allow of limiter.go grants to one key at one moment.
use sulis.Base.{ℕ, zero, suc, ◌^◌, ◌≤◌, ◌<◌, ◌≡◌, false, Option, none, some, List, ltb}
use sulis.Base.Text.{Text}
use sulis.Error.{ok, err}
use sulis.RateLimit.{
  Budget, Bucket, Floats, MemoryLimiter, budget_for, bucket_of, evict_if_needed, fresh, refill,
  allow,
}

-- What IEEE 754 says of float64, and package time of a duration of zero: whole numbers up to 2^53 are
-- exact, and so are their order and their difference; and zero is not a positive number of seconds,
-- however it is divided by a positive one.
pub record IsIeee {F : Type 0} (floats : Floats F) : Type 0 where
  pub less :
      (m n : ℕ)
      → m ≤ 2 ^ 53
      → n ≤ 2 ^ 53
      → floats.is_less (floats.of_nat m) (floats.of_nat n) ≡ ltb m n
  pub less_one :
      (n : ℕ)
      → suc n ≤ 2 ^ 53
      → floats.sub (floats.of_nat (suc n)) (floats.of_nat 1) ≡ floats.of_nat n
  pub no_time :
      (t interval : ℕ)
      → 0 < interval
      → floats.is_less
          (floats.of_nat 0)
          (floats.div (floats.seconds_since t t) (floats.seconds interval))
        ≡ false

module _ {F : Type 0} (floats : Floats F) where
  -- how many of so many calls of Allow for the key, all at time `t`, return nil
  pub granted : ℕ → Text → ℕ → MemoryLimiter F → ℕ
  granted t key zero l = 0
  granted t key (suc calls) l =
      let rest = granted t key calls (allow floats t t key l).1 in
      elim (allow floats t t key l).0 [ ok _ ↦ suc rest | err _ ↦ rest ]

  -- the bucket that a call finds, refilled or new
  abbrev pub found : Budget → ℕ → Option (Bucket F) → Bucket F
  found b t none = fresh floats b t
  found b t (some old) = refill floats b t old

  -- the key is not tracked, or its bucket is refilled to the full at time `t`
  abbrev pub IsRested : ℕ → Text → MemoryLimiter F → Type 0
  IsRested t key l =
      found (budget_for l key) t (bucket_of key l.buckets) ≡ fresh floats (budget_for l key) t

  -- what a call leaves of the other keys
  abbrev pub others : ℕ → Option (Bucket F) → MemoryLimiter F → List (Text × Bucket F)
  others t none l = evict_if_needed floats l t
  others t (some old) l = l.buckets
