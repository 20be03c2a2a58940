-- ===== src/RateLimit/Cap.antt =====
-- How many keys the MemoryLimiter of limiter.go tracks.
use sulis.Base.{
  ℕ, suc, ◌==◌, ◌≤◌, ◌<◌, ◌≡◌, refl, true, false, ◌||◌, is_some, List, [], ◌∷◌, arith, ltb,
  if◌then◌else◌, Bool-cases, Option-cases, inl, inr, length,
}
use sulis.Base.Text.{Text, text_eq_refl, is_empty}
use sulis.RateLimit.{
  Bucket, Floats, MemoryLimiter, budget_for, bucket_of, set_bucket, drop_bucket, drop_full,
  oldest_key, evict_if_needed, fresh, refill, spend, allow,
}

module _ {F : Type 0} where
  length-set_bucket :
      (key : Text) (bucket : Bucket F) (buckets : List (Text × Bucket F))
      → length (set_bucket key bucket buckets)
        ≡ (if is_some (bucket_of key buckets) then length buckets else suc (length buckets))
  unfolding set_bucket bucket_of
  length-set_bucket key bucket [] = refl
  length-set_bucket key bucket ((k, old) ∷ rest) = ground (arith, length-set_bucket key bucket rest)

  length-drop_full :
      (floats : Floats F) (l : MemoryLimiter F) (t : ℕ) (buckets : List (Text × Bucket F))
      → length (drop_full floats l t buckets) ≤ length buckets
  unfolding drop_full
  length-drop_full floats l t [] = omega arith
  length-drop_full floats l t ((k, bucket) ∷ rest) =
      ground (arith, length-drop_full floats l t rest)

  drop_bucket_le :
      (key : Text) (buckets : List (Text × Bucket F))
      → length (drop_bucket key buckets) ≤ length buckets
  unfolding drop_bucket
  drop_bucket_le key [] = omega arith
  drop_bucket_le key ((k, bucket) ∷ rest) = ground (arith, drop_bucket_le key rest)

  -- To drop a key that is there makes the list shorter.
  length-drop_bucket :
      (key : Text) (buckets : List (Text × Bucket F))
      → is_some (bucket_of key buckets) ≡ true
      → length (drop_bucket key buckets) < length buckets
  unfolding drop_bucket bucket_of
  length-drop_bucket key [] there = ground arith
  length-drop_bucket key ((k, bucket) ∷ rest) there =
      ground (arith, drop_bucket_le key rest, length-drop_bucket key rest)

  -- The loop ends with a key of the list, or else with the key it began with.
  oldest_key_there :
      (key : Text) (oldest : ℕ) (buckets : List (Text × Bucket F))
      → is_some (bucket_of (oldest_key key oldest buckets) buckets) ≡ false
      → oldest_key key oldest buckets ≡ key
  unfolding oldest_key bucket_of
  oldest_key_there key oldest [] gone = refl
  oldest_key_there key oldest ((k, bucket) ∷ rest) gone =
      elim (Bool-cases (is_empty key || ltb bucket.last oldest)) [
        | inl newer ↦
            absurd (ground (arith, newer, text_eq_refl k, oldest_key_there k bucket.last rest))
        | inr same ↦ ground (arith, same, oldest_key_there key oldest rest)
      ]

  drop_oldest_lt :
      (buckets : List (Text × Bucket F))
      → 0 < length buckets
      → length (drop_bucket (oldest_key [] 0 buckets) buckets) < length buckets
  unfolding oldest_key bucket_of
  drop_oldest_lt [] some_key = omega arith
  drop_oldest_lt ((k, bucket) ∷ rest) some_key =
      length-drop_bucket (oldest_key [] 0 ((k, bucket) ∷ rest)) ((k, bucket) ∷ rest)
        (ground (arith, text_eq_refl k, oldest_key_there k bucket.last rest))

module _ {F : Type 0} (floats : Floats F) where
  -- the most keys that are tracked: the maximum, or one where that is zero
  abbrev pub cap : MemoryLimiter F → ℕ
  cap l = if l.max_keys == 0 then 1 else l.max_keys

  -- After the eviction there is room for one more key.
  evict_if_needed_room :
      (l : MemoryLimiter F) (t : ℕ)
      → length l.buckets ≤ cap l
      → length (evict_if_needed floats l t) < cap l
  unfolding evict_if_needed drop_bucket
  evict_if_needed_room l t within =
      let kept = drop_full floats l t l.buckets in
      ground (
        arith,
        length-drop_full floats l t l.buckets,
        drop_oldest_lt kept,
        drop_bucket_le (oldest_key [] 0 kept) kept,
      )

  -- From a state with no more keys than its maximum, or than one where the maximum is zero, any call of
  -- Allow leaves no more keys than that.
  pub allow_cap :
      (t later : ℕ) (key : Text) (l : MemoryLimiter F)
      → length l.buckets ≤ cap l
      → length (allow floats t later key l).1.buckets ≤ cap l
  unfolding allow
  allow_cap t later key l within =
      let b = budget_for l key in
      let room = evict_if_needed_room l later within in
      elim (Option-cases (bucket_of key l.buckets)) [
        | inl new ↦ ground (
          arith,
          new,
          room,
          length-set_bucket key (spend floats (fresh floats b t)).1
              (evict_if_needed floats l later),
        )
        | inr (old, there) ↦
            ground (
              arith,
              there,
              length-set_bucket key (spend floats (refill floats b t old)).1 l.buckets,
            )
      ]
