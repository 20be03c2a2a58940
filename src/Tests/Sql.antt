-- ===== src/Tests/Sql.antt =====
-- Examples for the SQLite stores.
use sulis.Base.{arith, ◌≡◌, refl, true, false, List, [], ◌∷◌, some}
use sulis.Base.Text.{Text, codes, to_lower, lower_byte}
use sulis.Base.Map.{Map, lookup}
use sulis.Error.{Result, ok, foreign, wrapped}
use sulis.Model.{User, Session, Token, TokenPurpose}
use sulis.Passkey.{PasskeyCredential}
use sulis.Totp.{Credential}
use sulis.Memstore.Users.Validity.{Write, creates, updates, deletes, IsValid}
use sulis.Memstore.Passkeys as MemPasskeys
use sulis.Memstore.Recovery as MemRecovery
use sulis.Memstore.Tokens as MemTokens
use sulis.Memstore.Totp as MemTotp
use sulis.Memstore.Totp.{TotpSlots}
use sulis.Sqlite
use sulis.Sqlite.{Db}
use sulis.Sqlite.Users as SqlUsers
use sulis.Sqlite.Users.Refinement.{run_sql, run_sql-atomic, IsCanonical}
use sulis.Sqlite.Users.Refinement as SqlUsersRefinement
use sulis.Sqlite.Tokens.Refinement as SqlTokensRefinement
use sulis.Sqlite.Sessions.Refinement as SqlSessionsRefinement
use sulis.Sqlite.Passkeys.Refinement as SqlPasskeysRefinement
use sulis.Sqlite.Users.Sequences as SqlUsersSequences
use sulis.Sqlite.Users.Sequences.{run_all, run_all_sql, run_all_sql-refines}
use sulis.Sqlite.Tokens as SqlTokens
use sulis.Sqlite.Tokens.Refinement.{consume_token-refines, IsUnique, calm}
use sulis.Sqlite.Sessions.Refinement.{change_sql, change_memory, change_sql-refines, deletes}
use sulis.Sqlite.Passkeys as SqlPasskeys
use sulis.Sqlite.Passkeys.{Challenge, ttl}
use sulis.Sqlite.Passkeys.Refinement.{delete_credential-refines, consume_challenge_in_time}
use sulis.Sqlite.Recovery as SqlRecovery
use sulis.Sqlite.Recovery.{CodeRow}
use sulis.Sqlite.Recovery.Refinement.{consume_code-refines, codes_of}
use sulis.Sqlite.Totp as SqlTotp
use sulis.Sqlite.Totp.{TotpTables}
use sulis.Sqlite.Totp.Refinement.{save_totp-refines, slots_of, keyed_active}
use sulis.Tests.Passkeys.{phone}
use sulis.Tests.{ann, ticket, mailed}

abbrev rows : List User
rows = ann ∷ []

abbrev pub renamed : User
renamed = record ann { password_hash = 36 ∷ [] }

ann_alone : IsValid (SqlUsersRefinement.keyed rows)
unfolding SqlUsersRefinement.keyed lookup
ann_alone = record {
  distinct = ground arith;
  keyed = λ id u h. ground arith;
  unique = λ i j u v hi hj e. ground arith;
}

abbrev two_writes : List Write
two_writes = updates renamed ∷ deletes 7 ∷ []

run_all_sql-refines_example :
    SqlUsersRefinement.keyed (run_all_sql two_writes (SqlUsersSequences.calm rows)).1.tables
    ≡ (run_all two_writes (SqlUsersRefinement.keyed rows)).1
unfolding to_lower lower_byte
run_all_sql-refines_example =
    (run_all_sql-refines two_writes rows ann_alone (refl, tt) (refl, (tt, tt))).1

-- the disk is full
abbrev full : Db (List User)
full = record { tables = rows; outcomes = some (foreign 13) ∷ [] }

run_sql-atomic_example : (run_sql (creates renamed) full).1.tables ≡ rows
unfolding SqlUsers.create_user Sqlite.outcome Sqlite.is_unique_violation
run_sql-atomic_example =
    run_sql-atomic (creates renamed) full
      (wrapped (codes "sulis/sqlite: creating a user") (foreign 13)) refl

abbrev token : Token
token = mailed TokenPurpose.two_factor

consume_token-refines_example :
    let (r, after) =
      SqlTokens.consume_token token.token_hash TokenPurpose.two_factor (calm (token ∷ [])) in
    ◌≡◌ {A = Result Token × Map Token}
      (r, SqlTokensRefinement.keyed after.tables)
      (MemTokens.consume_token token.token_hash TokenPurpose.two_factor
        (SqlTokensRefinement.keyed (token ∷ [])))
unfolding IsUnique Sqlite.any
consume_token-refines_example =
    consume_token-refines token.token_hash TokenPurpose.two_factor (token ∷ []) (refl, tt)

abbrev sessions : List Session
sessions = ticket ∷ []

change_sql-refines_example :
    let (r, after) = change_sql (deletes 7 50) (record { tables = sessions; outcomes = [] }) in
    ◌≡◌ {A = Result Unit × Map Session}
      (r, SqlSessionsRefinement.keyed after.tables)
      (change_memory (deletes 7 50) (SqlSessionsRefinement.keyed sessions))
unfolding SqlSessionsRefinement.keyed lookup
change_sql-refines_example = change_sql-refines (deletes 7 50) sessions (refl, tt)

delete_credential-refines_example :
    let (r, after) =
      SqlPasskeys.delete_credential 7 70 false (record { tables = phone ∷ []; outcomes = [] }) in
    ◌≡◌ {A = Result Unit × Map PasskeyCredential}
      (r, SqlPasskeysRefinement.keyed after.tables)
      (MemPasskeys.delete_credential 7 70 false (SqlPasskeysRefinement.keyed (phone ∷ [])))
unfolding SqlPasskeysRefinement.keyed lookup
delete_credential-refines_example = delete_credential-refines 7 70 false (phone ∷ []) (refl, tt)

abbrev login_key : Text
login_key = codes "login:1"

abbrev no_challenges : Db (List Challenge)
no_challenges = record { tables = []; outcomes = [] }

abbrev one_challenge : Db (List Challenge)
one_challenge = (SqlPasskeys.save_challenge 60 1000 login_key (codes "data") no_challenges).1

consume_challenge_in_time_example :
    (SqlPasskeys.consume_challenge 1059 login_key one_challenge).0 ≡ ok (codes "data")
unfolding ttl
consume_challenge_in_time_example =
    (consume_challenge_in_time 60 1000 1059 1060 login_key (codes "data") []).0

abbrev code_rows : List CodeRow
code_rows =
    record { user_id = 7; code_hash = codes "x"; created_at = 1 }
    ∷ record { user_id = 8; code_hash = codes "x"; created_at = 2 }
    ∷ []

abbrev code_map : Map (List Text)
code_map = (7, codes "x" ∷ []) ∷ []

consume_code-refines_example :
    (SqlRecovery.consume_code 7 (codes "x") (record { tables = code_rows; outcomes = [] })).0
    ≡ (MemRecovery.consume_code 7 (codes "x") code_map).0
unfolding lookup codes_of
consume_code-refines_example = (consume_code-refines 7 (codes "x") code_rows code_map refl).0

abbrev pub totp_tables : TotpTables
totp_tables = record {
  active =
      record { user_id = 7; id = 80; secret = codes "s"; last_used_counter = 4; created_at = 1 }
      ∷ [];
  pending = [];
}

abbrev pub used_totp : Credential
used_totp = record {
  id = 80;
  user_id = 7;
  secret = codes "s";
  verified = true;
  last_used_counter = 5;
  created_at = 1;
}

save_totp-refines_example :
    let (r, after) = SqlTotp.save_totp used_totp (record { tables = totp_tables; outcomes = [] }) in
    ◌≡◌ {A = Result Unit × TotpSlots}
      (r, slots_of after.tables)
      (MemTotp.save_totp used_totp (slots_of totp_tables))
unfolding keyed_active lookup
save_totp-refines_example = save_totp-refines used_totp totp_tables (refl, tt)
