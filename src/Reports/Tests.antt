-- ===== src/Reports/Tests.antt =====
-- The names of actions at concrete reports.
use neon_tests.Prelude.{◌≡◌, refl, [], ◌∷◌, ◌++◌, List}
use neon_tests.Py.{ok, err, attribute_error}
use neon_tests.Cli.Words.{is_space}
use neon_tests.Prelude.Text.{Text, codes}
use neon_tests.Reports.{unique_names, numbered}
use neon_tests.Reports.Prepare.{split_from, split_action}
use neon_tests.Reports.Prepare.Split.{split_action-numbered}
use neon_tests.Reports.Numbered.{names_at, unique_names-names_at}

abbrev actions : List Text
actions = codes "swap" ∷ codes "lend" ∷ codes "swap" ∷ []

unique_names-names_at_example : unique_names actions ≡ names_at actions [] actions
unique_names-names_at_example = unique_names-names_at actions

-- Two actions of one name beside one that is called like the first of them.
colliding_names :
    unique_names (codes "swap" ∷ codes "swap" ∷ codes "swap 1" ∷ [])
    ≡ codes "swap 1" ∷ codes "swap 2" ∷ codes "swap 1" ∷ []
unfolding unique_names
colliding_names = refl

split_action-numbered_example :
    split_action (numbered (codes "swa" ++ 112 ∷ []) 12) ≡ ok (codes "swa" ++ 112 ∷ [], 12)
unfolding is_space
split_action-numbered_example = split_action-numbered (codes "swa") 112 12 refl (refl, refl)

-- A name of two lines is not split.
two_lines : split_action (codes "a\nb 1") ≡ err attribute_error
unfolding split_action split_from is_space
two_lines = refl
