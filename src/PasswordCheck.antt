-- ===== src/PasswordCheck.antt =====
-- Package passwordcheck: the blocklist of passwordcheck/blocklist.go and All of
-- passwordcheck/passwordcheck.go. The embedded corpus is a parameter: the lines of the file.
pub mod Folding
pub mod Hibp
use sulis.Base.{ℕ, Bool, true, false, ◌||◌, List, [], ◌∷◌, ◌==◌, map, if◌then◌else◌}
use sulis.Base.Text.{Text, text_eq, is_empty, to_lower}
use sulis.Error.{Error, Result, ok, err, sentinel, password_compromised}
use sulis.Exec.{Exec, pure, ◌>>=◌, ◌>>◌}
use sulis.Service.{PasswordChecker}

-- strings.TrimRight(line, "\r\n")
unfoldable pub trim_line_end : Text → Text
trim_line_end [] = []
trim_line_end (c ∷ line) =
    let rest = trim_line_end line in
    if is_empty rest then (if c == 10 || c == 13 then [] else c ∷ []) else c ∷ rest

-- the set that is made of the lines of the corpus, as a list
unfoldable pub common_passwords : List Text → List Text
unfolding trim_line_end
common_passwords [] = []
common_passwords (line ∷ lines) =
    let rest = common_passwords lines in
    let entry = to_lower (trim_line_end line) in if is_empty entry then rest else entry ∷ rest

unfoldable pub contains_entry : Text → List Text → Bool
contains_entry folded [] = false
contains_entry folded (x ∷ xs) = let rest = contains_entry folded xs in text_eq x folded || rest

unfoldable pub new_blocklist : List Text → List Text
new_blocklist extra = map to_lower extra

-- the corpus, the extra entries, the password
unfoldable pub check : List Text → List Text → Text → Result (Unit {0})
check corpus extra password =
    let folded = to_lower password in
    if is_empty password
    then ok tt
    else if contains_entry folded extra
    then err (sentinel password_compromised)
    else if contains_entry folded (common_passwords corpus)
    then err (sentinel password_compromised)
    else ok tt

module _ {W : Type 0} where
  unfoldable pub all : List (PasswordChecker W) → Text → Exec W Unit
  all [] password = pure tt
  all (c ∷ checkers) password = do c.check password; all checkers password
