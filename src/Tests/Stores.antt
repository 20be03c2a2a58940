-- ===== src/Tests/Stores.antt =====
-- Examples for the in-memory stores and the writes over them.
use sulis.Base.{ℕ, ◌≡◌, refl, List, true, [], ◌∷◌, arith}
use sulis.Base.Text
use sulis.Base.Map.{remove_if, find, insert, lookup}
use sulis.Error.{ok}
use sulis.Exec.{pure}
use sulis.Model.{User, TokenPurpose}
use sulis.Service.Users.{update_user_with_retry, attempts}
use sulis.Service.Users.Retry.{Landed, update_user_with_retry-Landed}
use sulis.Memstore.Users
use sulis.Memstore.Users.Validity.{IsValid, updates, run, run-IsValid}
use sulis.Memstore.Sessions.{get_session_by_token_hash, delete_user_sessions}
use sulis.Memstore.Tokens.{consume_token}
use sulis.Memory.{World}
use sulis.Tests.{service, world, ann, ticket, mailed}

abbrev start : World
start = world TokenPurpose.two_factor

ann_alone : IsValid start.users
unfolding lookup
ann_alone = record {
  distinct = ground arith;
  keyed = λ id u h. ground arith;
  unique = λ i j u v hi hj e. ground arith;
}

abbrev renamed : User
renamed = record ann { password_hash = 36 ∷ [] }

updated : (Users.update_user renamed start.users).0 ≡ ok tt
unfolding Users.update_user lookup Users.email_taken find Text.text_eq insert
updated = refl

run-IsValid_example : IsValid (run (updates renamed) start.users).1
run-IsValid_example = run-IsValid (updates renamed) start.users ann_alone

other_found :
    (get_session_by_token_hash (104 ∷ 1 ∷ []) (delete_user_sessions 8 start.sessions).1).0
    ≡ ok ticket
unfolding get_session_by_token_hash delete_user_sessions remove_if find Text.text_eq
other_found = refl

abbrev hash : List ℕ
hash = 104 ∷ 2 ∷ []

consumed :
    (consume_token hash TokenPurpose.two_factor start.tokens).0
    ≡ ok (record (mailed TokenPurpose.two_factor) { used = true })
unfolding consume_token find Text.text_eq insert
consumed = refl

abbrev unhash : User → User
unhash u = record u { password_hash = [] }

retried :
    update_user_with_retry service 7 (λ x. pure (unhash x, tt)) start
    ≡ (ok (unhash ann, tt), (update_user_with_retry service 7 (λ x. pure (unhash x, tt)) start).1)
unfolding update_user_with_retry attempts Users.get_user_by_id lookup Users.update_user
    Users.email_taken find Text.text_eq insert
retried = refl

update_user_with_retry-Landed_example :
    Landed service 7
      (λ x. pure (unhash x, tt))
      (unhash ann, tt)
      (update_user_with_retry service 7 (λ x. pure (unhash x, tt)) start).1
update_user_with_retry-Landed_example =
    update_user_with_retry-Landed service 7 (λ x. pure (unhash x, tt)) start
      (update_user_with_retry service 7 (λ x. pure (unhash x, tt)) start).1 (unhash ann, tt) retried
