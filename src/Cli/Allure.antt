-- ===== src/Cli/Allure.antt =====
-- The history of the reports, of `get_allure_history` in clickfile.py: which earlier build it is taken
-- from. The prefixes of the builds are those that the storage lists.
pub mod Digits
use neon_tests.Prelude.{
  ℕ, ◌+◌, ◌*◌, ◌-◌, [], ◌∷◌, ◌++◌, List, Option, none, some, ltb, if◌then◌else◌, Bool, true, false,
}
use neon_tests.Prelude.Text.{Text, codes, is_digit}
use neon_tests.Reports.{decimal}

-- `int` of the digits that a text begins with, behind the digits that were read.
unfoldable pub number_from : ℕ → Text → ℕ
number_from n [] = n
number_from n (c ∷ cs) =
    let more = number_from (10 * n + (c - 48)) cs in if is_digit c then more else n

-- `re.findall(r"(\d+)", text)[0]` as a number, of ASCII digits.
unfoldable pub first_number : Text → Option ℕ
unfolding number_from
first_number [] = none
first_number (c ∷ cs) =
    let later = first_number cs in if is_digit c then some (number_from 0 (c ∷ cs)) else later

-- `max`, of the numbers that were found.
abbrev pub larger_or : Option ℕ → Option ℕ → Option ℕ
larger_or none b = b
larger_or (some n) none = some n
larger_or (some n) (some m) = if ltb n m then some m else some n

unfoldable pub latest_run : List Text → Option ℕ
unfolding first_number
latest_run [] = none
latest_run (p ∷ ps) = larger_or (first_number p) (latest_run ps)

-- The directory that is downloaded, if there is a run.
abbrev pub history_of : Text → Option ℕ → Option Text
history_of path none = none
history_of path (some n) = some (path ++ 47 ∷ decimal n ++ codes "/history")

unfoldable pub get_allure_history : (path : Text) → (prefixes : List Text) → Option Text
unfolding latest_run
get_allure_history path prefixes = history_of path (latest_run prefixes)
