-- ===== src/Reports.antt =====
-- The names of the actions in `prepare_report_data` of deploy/cli/cost_report.py. The names are given
-- in lower case and without white space around them. A dictionary is an association list.
pub mod Numbered
pub mod Prepare
pub mod Collector
mod Tests
use neon_tests.Prelude.{
  ℕ, zero, suc, ◌+◌, ◌/◌, ◌%◌, [], ◌∷◌, ◌++◌, List, ltb, not, if◌then◌else◌, Bool, true, false,
}
use neon_tests.Prelude.Text.{Text, text_eq}
use neon_tests.Results.Order.{keep}
use neon_tests.Results.PreviousTags.{distinct, is_among}

-- How often a name occurs: `Counter(names)[name]`.
pub count : Text → List Text → ℕ
count t [] = 0
count t (n ∷ ns) = let rest = count t ns in if text_eq n t then 1 + rest else rest

-- `[action for action, count in counts.items() if count > 1]`
pub duplicate_actions : List Text → List Text
unfolding keep distinct count
duplicate_actions names = keep (λ t. ltb 1 (count t names)) (distinct names)

-- `{dup_action: 1 for dup_action in duplicate_actions}`
pub first_numbers : List Text → List (Text × ℕ)
first_numbers [] = []
first_numbers (t ∷ ts) = (t, 1) ∷ first_numbers ts

pub number_of : Text → List (Text × ℕ) → ℕ
number_of t [] = 0
number_of t ((k, n) ∷ ds) = if text_eq k t then n else number_of t ds

-- `added_numbers[name] += 1`
pub increment : Text → List (Text × ℕ) → List (Text × ℕ)
increment t [] = []
increment t ((k, n) ∷ ds) = if text_eq k t then (k, n + 1) ∷ ds else (k, n) ∷ increment t ds

-- `str(n)`: with as much fuel as the number is large.
unfoldable pub digits : ℕ → ℕ → Text → Text
digits zero n text = text
digits (suc f) n text =
    let next = digits f (n / 10) ((48 + n % 10) ∷ text) in
    if ltb n 10 then (48 + n) ∷ text else next

unfoldable pub decimal : ℕ → Text
unfolding digits
decimal n = digits (n + 1) n []

-- `f"{base_action_name} {added_number}"`
abbrev pub numbered : Text → ℕ → Text
numbered t n = t ++ 32 ∷ decimal n

-- The loop over the actions: the duplicates, and the numbers to be given next.
pub name_actions : List Text → List (Text × ℕ) → List Text → List Text
unfolding number_of increment decimal
name_actions dups numbers [] = []
name_actions dups numbers (t ∷ ts) =
    let with_number =
      numbered t (number_of t numbers) ∷ name_actions dups (increment t numbers) ts in
    let plain = t ∷ name_actions dups numbers ts in if is_among dups t then with_number else plain

pub unique_names : List Text → List Text
unfolding duplicate_actions first_numbers name_actions
unique_names names =
    name_actions (duplicate_actions names) (first_numbers (duplicate_actions names)) names
