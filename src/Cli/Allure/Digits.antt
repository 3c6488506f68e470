-- ===== src/Cli/Allure/Digits.antt =====
-- Which build the history is taken from where the path has digits.
use neon_tests.Prelude.{
  ℕ, ◌+◌, ◌*◌, ◌-◌, ◌≡◌, refl, ap, ◌∙◌, [], ◌∷◌, ◌++◌, List, none, some, any, true, inl, inr,
  Bool-cases, or_rest, arith,
}
use neon_tests.Prelude.Text.{Text, is_digit}
use neon_tests.Cli.Allure.{
  number_from, first_number, larger_or, latest_run, history_of, get_allure_history,
}

-- The listed prefixes of some runs.
abbrev pub prefixes_of : Text → List Text → List Text
prefixes_of path [] = []
prefixes_of path (run ∷ runs) = (path ++ 47 ∷ (run ++ 47 ∷ [])) ∷ prefixes_of path runs

number_from-slash :
    (n : ℕ) (path rest : Text) → number_from n (path ++ 47 ∷ rest) ≡ number_from n (path ++ 47 ∷ [])
unfolding number_from
number_from-slash n [] rest = refl
number_from-slash n (c ∷ cs) rest = elim (Bool-cases (is_digit c)) [
  | inl digit ↦ rw digit (number_from-slash (10 * n + (c - 48)) cs rest)
  | inr other ↦ rw other refl
]

first_number-slash :
    (path rest : Text)
    → any is_digit path ≡ true
    → first_number (path ++ 47 ∷ rest) ≡ first_number (path ++ 47 ∷ [])
unfolding first_number
first_number-slash [] rest h = cc
first_number-slash (c ∷ cs) rest h = elim (Bool-cases (is_digit c)) [
  | inl digit ↦ rw digit (ap some (number_from-slash (10 * 0 + (c - 48)) cs rest))
  | inr other ↦
      rw other (first_number-slash cs rest (or_rest (is_digit c) (any is_digit cs) other h))
]

first_number-found :
    (path : Text) → any is_digit path ≡ true → (n : ℕ) × (first_number (path ++ 47 ∷ []) ≡ some n)
unfolding first_number
first_number-found [] h = cc
first_number-found (c ∷ cs) h = elim (Bool-cases (is_digit c)) [
  | inl digit ↦ (number_from (10 * 0 + (c - 48)) (cs ++ 47 ∷ []), rw digit refl)
  | inr other ↦ rw other (first_number-found cs (or_rest (is_digit c) (any is_digit cs) other h))
]

larger_or-same : (n : ℕ) → larger_or (some n) (some n) ≡ some n
larger_or-same n = ground arith

latest_run-digits :
    (path : Text) (n : ℕ) (run : Text) (runs : List Text)
    → any is_digit path ≡ true
    → first_number (path ++ 47 ∷ []) ≡ some n
    → latest_run (prefixes_of path (run ∷ runs)) ≡ some n
unfolding latest_run
latest_run-digits path n run [] h e =
    ap (λ x. larger_or x none) (first_number-slash path (run ++ 47 ∷ []) h ∙ e)
latest_run-digits path n run (next ∷ runs) h e =
    (λ i.
      larger_or ((first_number-slash path (run ++ 47 ∷ []) h ∙ e) i)
        (latest_run-digits path n next runs h e i))
    ∙ larger_or-same n

-- Without runs no history is taken. If the path of a group, a network and a branch has a digit, then
-- for every list with at least one run the history is taken from the build whose number is the first
-- one in the path, whatever the numbers of the runs.
pub get_allure_history-digits :
    (path run : Text) (runs : List Text)
    → any is_digit path ≡ true
    → (get_allure_history path (prefixes_of path []) ≡ none)
      × ((n : ℕ) × (first_number (path ++ 47 ∷ []) ≡ some n)
          × (get_allure_history path (prefixes_of path (run ∷ runs)) ≡ history_of path (some n)))
unfolding get_allure_history latest_run
get_allure_history-digits path run runs h =
    let (n, e) = first_number-found path h in
    (refl, (n, e, ap (history_of path) (latest_run-digits path n run runs h e)))
