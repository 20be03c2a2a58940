-- ===== src/Recovery/SingleUse.antt =====
-- A recovery code is used once: ConsumeCode of memstore/recovery.go.
use sulis.Base.{
  ℕ, ◌≡◌, ◌≢◌, true, false, some, List, [], ◌∷◌, arith, ◌==◌, if◌then◌else◌, Option-cases,
  Bool-cases, inl, inr,
}
use sulis.Base.Text.{Text, text_eq, text_eq_iff}
use sulis.Base.Map.{Map, lookup, lookup-insert}
use sulis.Error.{ok, code_not_found}
use sulis.Exec.{fail}
use sulis.Memstore.Recovery.{is_in, without, consume_code, count_codes}

is_in-without :
    (other hash : Text) (set : List Text)
    → is_in other (without hash set) ≡ (if text_eq hash other then false else is_in other set)
unfolding is_in without
is_in-without other hash [] = ground arith
is_in-without other hash (x ∷ xs) = ground (
  arith,
  text_eq_iff x hash,
  text_eq_iff x other,
  text_eq_iff hash other,
  is_in-without other hash xs,
)

-- A code that was consumed is gone: the same code is then refused with ErrCodeNotFound, and the refusal
-- writes nothing. The number that ConsumeCode returns is the number that CountCodes then finds.
pub consume_code_twice :
    (user_id : ℕ) (hash : Text) (users : Map (List Text)) (left : ℕ)
    → (consume_code user_id hash users).0 ≡ ok left
    → (consume_code user_id hash (consume_code user_id hash users).1
        ≡ fail code_not_found (consume_code user_id hash users).1)
      × ((count_codes user_id (consume_code user_id hash users).1).0 ≡ ok left)
unfolding consume_code count_codes
consume_code_twice user_id hash users left h = elim (Option-cases (lookup user_id users)) [
  | inl absent ↦ absurd (ground (arith, absent))
  | inr (set, there) ↦
      let kept = lookup-insert user_id user_id (without hash set) users in
      let gone = is_in-without hash hash set in
      (ground (arith, there, kept, gone, text_eq_iff hash hash), ground (arith, there, kept))
]

-- No code of another user, and no other code of the user, is lost when a code is consumed.
consume_code_other :
    (user_id : ℕ) (hash : Text) (users : Map (List Text)) (left : ℕ) (other : ℕ) (set : List Text)
    (kept : Text)
    → (consume_code user_id hash users).0 ≡ ok left
    → lookup other users ≡ some set
    → is_in kept set ≡ true
    → kept ≢ hash
    → (set' : List Text) × (lookup other (consume_code user_id hash users).1 ≡ some set')
      × (is_in kept set' ≡ true)
unfolding consume_code
consume_code_other user_id hash users left other set kept h there held differs =
    elim (Option-cases (lookup user_id users)) [
      | inl absent ↦ absurd (ground (arith, absent))
      | inr (own, present) ↦
          let moved = lookup-insert user_id other (without hash own) users in
          elim (Bool-cases (user_id == other)) [
            | inl same ↦ (
              without hash set,
              ground (arith, present, moved, same),
              ground (arith, is_in-without kept hash set, text_eq_iff hash kept),
            )
            | inr different ↦ (set, ground (arith, present, moved, different), held)
          ]
    ]
