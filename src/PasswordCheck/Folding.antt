-- ===== src/PasswordCheck/Folding.antt =====
-- Blocklist.Check of passwordcheck/blocklist.go does not see case.
use sulis.Base.{◌≡◌, true, false, List, [], ◌∷◌, ◌++◌, arith, map}
use sulis.Base.Text.{Text, text_eq_iff, is_empty, to_lower}
use sulis.Error.{err, sentinel, password_compromised}
use sulis.PasswordCheck.{check, new_blocklist, contains_entry}

contains_entry-map :
    (before after : List Text) (word : Text)
    → contains_entry (to_lower word) (map to_lower (before ++ (word ∷ after))) ≡ true
unfolding contains_entry
contains_entry-map [] after word = ground (arith, text_eq_iff (to_lower word) (to_lower word))
contains_entry-map (x ∷ before) after word = ground (arith, contains_entry-map before after word)

-- A password that is not empty and differs only in case from an entry that NewBlocklist was given is refused, whatever
-- the other entries and the corpus are.
check_extra :
    (corpus before after : List Text) (word password : Text)
    → is_empty password ≡ false
    → to_lower password ≡ to_lower word
    → check corpus (new_blocklist (before ++ (word ∷ after))) password
      ≡ err (sentinel password_compromised)
unfolding check new_blocklist
check_extra corpus before after word password given same =
    ground (arith, contains_entry-map before after word)
