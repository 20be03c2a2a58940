-- ===== src/Memstore/Tokens/SingleUse.antt =====
-- ConsumeToken of memstore/token.go gives out a token once.
use sulis.Base.{ℕ, ◌≡◌, refl, true, false, some, arith, Option-cases, inl, inr}
use sulis.Base.Text.{Text}
use sulis.Base.Map.{Map, insert, find, DistinctKeys, find-some, find-insert}
use sulis.Error.{ok, token_already_used}
use sulis.Exec.{fail}
use sulis.Model.{Token, TokenPurpose}
use sulis.Memstore.Tokens.{consume_token, matches}

-- What a successful call found and wrote.
Consumes : Text → TokenPurpose → Map Token → Token → Type 0
Consumes hash purpose tokens t =
    (id : ℕ) × (x : Token) × (find (matches hash purpose) tokens ≡ some (id, x))
    × (x.used ≡ false)
    × (t ≡ record x { used = true })
    × ((consume_token hash purpose tokens).1 ≡ insert id (record x { used = true }) tokens)

consume_token-eq-ok :
    (hash : Text) (purpose : TokenPurpose) (tokens : Map Token) (t : Token)
    → (consume_token hash purpose tokens).0 ≡ ok t
    → Consumes hash purpose tokens t
unfolding consume_token Consumes
consume_token-eq-ok hash purpose tokens t h =
    elim (Option-cases (find (matches hash purpose) tokens)) [
      | inl missing ↦ absurd (ground (arith, missing))
      | inr ((id, x), found) ↦
          (id, x, found, ground (arith, found), ground (arith, found), ground (arith, found))
    ]

consume_token_used :
    (hash : Text) (purpose : TokenPurpose) (tokens : Map Token) (id : ℕ) (x : Token)
    → find (matches hash purpose) tokens ≡ some (id, x)
    → x.used ≡ true
    → consume_token hash purpose tokens ≡ fail token_already_used tokens
unfolding consume_token
consume_token_used hash purpose tokens id x found used = ground (arith, found)

-- A token that was consumed is not given out again: the same hash and purpose is then refused with
-- ErrTokenAlreadyUsed, and the refusal writes nothing.
pub consume_token_twice :
    (hash : Text) (purpose : TokenPurpose) (tokens : Map Token) (t : Token)
    → DistinctKeys tokens
    → (consume_token hash purpose tokens).0 ≡ ok t
    → consume_token hash purpose (consume_token hash purpose tokens).1
      ≡ fail token_already_used (consume_token hash purpose tokens).1
unfolding Consumes
consume_token_twice hash purpose tokens t d h =
    let (id, x, found, fresh, _, state) = consume_token-eq-ok hash purpose tokens t h in
    rw state (
      consume_token_used hash purpose (insert id (record x { used = true }) tokens) id
        (record x { used = true })
        (find-insert (matches hash purpose) tokens id x (record x { used = true }) d found
          (find-some (matches hash purpose) tokens id x d found).1)
        refl)
