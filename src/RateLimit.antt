-- ===== src/RateLimit.antt =====
-- MemoryLimiter of limiter.go: a token bucket for each key, the budget of a key by its longest prefix,
-- and the eviction of keys beyond the cap.
--
-- `Floats` stands for the arithmetic of float64 and for the seconds of package time. The budget of a
-- key does not change once the limiter is built. A burst and a maximum of keys are not negative.
pub mod Bound
pub mod Cap
use sulis.Base.{
  ℕ, zero, suc, ◌*◌, Bool, true, false, not, ◌&&◌, ◌||◌, Option, none, some, List, [], ◌∷◌, ltb,
  leb, ◌==◌, if◌then◌else◌, length,
}
use sulis.Base.Text.{Text, codes, text_eq, is_empty, has_prefix}
use sulis.Error.{Result, ok, err, sentinel, rate_limited}

pub record Budget : Type 0 where
  pub burst : ℕ
  pub interval : ℕ

pub record Floats (F : Type 0) : Type 0 where
  pub of_nat : ℕ → F
  pub add : F → F → F
  pub sub : F → F → F
  pub div : F → F → F
  pub minimum : F → F → F
  -- x < y, and x >= y
  pub is_less : F → F → Bool
  pub is_least : F → F → Bool
  -- Duration.Seconds, of so many nanoseconds and of the time from the second to the first
  pub seconds : ℕ → F
  pub seconds_since : ℕ → ℕ → F

pub record Bucket (F : Type 0) : Type 0 where
  pub tokens : F
  pub last : ℕ

pub record MemoryLimiter (F : Type 0) : Type 0 where
  pub buckets : List (Text × Bucket F)
  pub budgets : List (Text × Budget)
  pub fallback : Budget
  pub max_keys : ℕ

-- so many attempts, one restored every so many seconds
abbrev pub per : ℕ → ℕ → Budget
per burst seconds = record { burst = burst; interval = seconds * 1000000000 }

abbrev pub new_memory_limiter : {F : Type 0} → MemoryLimiter F
new_memory_limiter = record {
  buckets = [];
  budgets =
      (codes "password:", per 10 30)
      ∷ (codes "password:ip:", per 20 5)
      ∷ (codes "reset:", per 5 120)
      ∷ (codes "reset:ip:", per 15 20)
      ∷ (codes "magic:", per 5 120)
      ∷ (codes "magic:ip:", per 15 20)
      ∷ (codes "register:ip:", per 15 20)
      ∷ (codes "totp:", per 10 30)
      ∷ [];
  fallback = per 10 30;
  max_keys = 100000;
}

-- the loop of budgetFor: `longer` is one more than the length of the best prefix so far
unfoldable pub best_budget : Text → Budget → ℕ → List (Text × Budget) → Budget
best_budget key best longer [] = best
best_budget key best longer ((prefix, b) ∷ rest) =
    if leb longer (length prefix) && has_prefix key prefix
    then best_budget key b (suc (length prefix)) rest
    else best_budget key best longer rest

module _ {F : Type 0} where
  unfoldable pub budget_for : MemoryLimiter F → Text → Budget
  unfolding best_budget
  budget_for l key = best_budget key l.fallback 0 l.budgets

  -- l.buckets[key]
  unfoldable pub bucket_of : Text → List (Text × Bucket F) → Option (Bucket F)
  bucket_of key [] = none
  bucket_of key ((k, b) ∷ rest) =
      let found = bucket_of key rest in if text_eq k key then some b else found

  unfoldable pub set_bucket : Text → Bucket F → List (Text × Bucket F) → List (Text × Bucket F)
  set_bucket key b [] = (key, b) ∷ []
  set_bucket key b ((k, old) ∷ rest) =
      let others = set_bucket key b rest in
      if text_eq k key then (key, b) ∷ rest else (k, old) ∷ others

  unfoldable pub drop_bucket : Text → List (Text × Bucket F) → List (Text × Bucket F)
  drop_bucket key [] = []
  drop_bucket key ((k, b) ∷ rest) =
      let others = drop_bucket key rest in if text_eq k key then others else (k, b) ∷ others

  -- the loop that finds the key that was touched first: the key and its time so far
  unfoldable pub oldest_key : Text → ℕ → List (Text × Bucket F) → Text
  oldest_key key oldest [] = key
  oldest_key key oldest ((k, bucket) ∷ rest) =
      let here = oldest_key k bucket.last rest in
      let before = oldest_key key oldest rest in
      if is_empty key || ltb bucket.last oldest then here else before

abbrev pub answer : Bool → Result (Unit {0})
answer true = ok tt
answer false = err (sentinel rate_limited)

module _ {F : Type 0} (floats : Floats F) where
  -- how many tokens the time up to `t` restores
  abbrev pub restored : Budget → ℕ → Bucket F → F
  restored b t bucket = floats.div (floats.seconds_since t bucket.last) (floats.seconds b.interval)

  -- the bucket is full again at time `t`
  abbrev pub is_full : Budget → ℕ → Bucket F → Bool
  is_full b t bucket =
      floats.is_least (floats.add bucket.tokens (restored b t bucket)) (floats.of_nat b.burst)

  unfoldable pub drop_full : MemoryLimiter F → ℕ → List (Text × Bucket F) → List (Text × Bucket F)
  drop_full l t [] = []
  drop_full l t ((k, bucket) ∷ rest) =
      let others = drop_full l t rest in
      if is_full (budget_for l k) t bucket then others else (k, bucket) ∷ others

  unfoldable pub evict_if_needed : MemoryLimiter F → ℕ → List (Text × Bucket F)
  evict_if_needed l t =
      if ltb (length l.buckets) l.max_keys
      then l.buckets
      else let kept = drop_full l t l.buckets in
        if ltb (length kept) l.max_keys then kept else drop_bucket (oldest_key [] 0 kept) kept

  -- the bucket of a key that is not tracked
  abbrev pub fresh : Budget → ℕ → Bucket F
  fresh b t = record { tokens = floats.of_nat b.burst; last = t }

  -- the refill of a bucket that is there
  unfoldable pub refill : Budget → ℕ → Bucket F → Bucket F
  refill b t bucket =
      if floats.is_less (floats.of_nat 0) (restored b t bucket)
      then record {
        tokens =
            floats.minimum (floats.of_nat b.burst) (floats.add bucket.tokens (restored b t bucket));
        last = t;
      }
      else bucket

  -- the last lines of Allow: whether a token was there, and the bucket without it
  unfoldable pub spend : Bucket F → Bool × Bucket F
  spend bucket =
      if floats.is_less bucket.tokens (floats.of_nat 1)
      then (false, bucket)
      else (true, record bucket { tokens = floats.sub bucket.tokens (floats.of_nat 1) })

  -- Allow at time `t`; the eviction reads the clock again, at `later`.
  unfoldable pub allow : ℕ → ℕ → Text → MemoryLimiter F → Result (Unit {0}) × MemoryLimiter F
  allow t later key l =
      let b = budget_for l key in
      if b.burst == 0 || b.interval == 0 then (ok tt, l) else elim (bucket_of key l.buckets) [
        | none ↦
            let (granted, bucket) = spend (fresh b t) in
            (answer granted, record l { buckets = set_bucket key bucket (evict_if_needed l later) })
        | some old ↦
            let (granted, bucket) = spend (refill b t old) in
            (answer granted, record l { buckets = set_bucket key bucket l.buckets })
      ]
