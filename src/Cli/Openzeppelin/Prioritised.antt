-- ===== src/Cli/Openzeppelin/Prioritised.antt =====
-- The order of the tests.
use neon_tests.Prelude.{
  ◌≡◌, ap, sym, ◌∙◌, [], ◌∷◌, ◌++◌, List, not, append_assoc, append-nil, inl, inr, Bool-cases,
}
use neon_tests.Prelude.Text.{Text}
use neon_tests.Results.Order.{keep}
use neon_tests.Cli.Openzeppelin.{is_priority, sort_tests, prioritised_tests}

sort_tests-keep :
    (priority other ts : List Text)
    → sort_tests priority other ts
      ≡ (priority ++ keep is_priority ts, other ++ keep (λ t. not (is_priority t)) ts)
unfolding sort_tests keep
sort_tests-keep priority other [] = λ i. (sym (append-nil priority) i, sym (append-nil other) i)
sort_tests-keep priority other (t ∷ ts) = elim (Bool-cases (is_priority t)) [
  | inl first ↦ rw first (
      sort_tests-keep (priority ++ t ∷ []) other ts
      ∙ ap (λ xs. (xs, other ++ keep (λ t. not (is_priority t)) ts))
          (append_assoc priority (t ∷ []) (keep is_priority ts)))
  | inr later ↦ rw later (
      sort_tests-keep priority (other ++ t ∷ []) ts
      ∙ ap (λ xs. (priority ++ keep is_priority ts, xs))
          (append_assoc other (t ∷ []) (keep (λ t. not (is_priority t)) ts)))
]

-- The tests run in the order of the files, those with a priority before the others.
pub prioritised_tests-keep :
    (tests : List Text)
    → prioritised_tests tests ≡ keep is_priority tests ++ keep (λ t. not (is_priority t)) tests
unfolding prioritised_tests
prioritised_tests-keep tests = ap (λ p. p.0 ++ p.1) (sort_tests-keep [] [] tests)
