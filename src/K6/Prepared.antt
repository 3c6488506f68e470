-- ===== src/K6/Prepared.antt =====
-- How many accounts there are for the users of k6.
use neon_tests.Prelude.{ℕ, zero, suc, ◌+◌, ◌*◌, ◌≡◌, ap, sym, ◌∙◌, [], ◌∷◌, List, ◌==◌, map}
use neon_tests.Py.{Result, ok, >>=-eq-ok, >>-eq-ok, guard, ok_injective}
use neon_tests.K6.{Account, Entry, rounds, k6_prepare_accounts}

abbrev pub numbers_from : ℕ → ℕ → List ℕ
numbers_from i zero = []
numbers_from i (suc n) = i ∷ numbers_from (suc i) n

module _ (create_account : ℕ → ℕ → Result Account) (transfer : ℕ → Account → ℕ → Result ℕ) where
  rounds-numbers :
      (left i balance erc20_balance : ℕ) (entries : List (ℕ × Entry))
      → rounds create_account transfer left i balance erc20_balance ≡ ok entries
      → map (λ (p : ℕ × Entry). p.0) entries ≡ numbers_from i left
  unfolding rounds
  rounds-numbers zero i balance erc20_balance entries r =
      ap (map (λ (p : ℕ × Entry). p.0)) (sym (ok_injective r))
  rounds-numbers (suc left) i balance erc20_balance entries r =
      let (sender, a, p) = >>=-eq-ok (create_account (2 * i) balance) _ r in
      let (receiver, b, q) = >>=-eq-ok (create_account (2 * i + 1) 0) _ p in
      let (status, c, s) = >>=-eq-ok (transfer i sender erc20_balance) _ q in
      let (d, t) = >>-eq-ok (guard (status == 1) _) _ entries s in
      let (more, e, u) =
        >>=-eq-ok (rounds create_account transfer left (suc i) balance erc20_balance) _ t in
      ap (map (λ (x : ℕ × Entry). x.0)) (sym (ok_injective u))
      ∙ ap (λ ns. i ∷ ns) (rounds-numbers left (suc i) balance erc20_balance more e)

  -- If all transfers succeed, there is one pair of accounts under each number below twice the users.
  pub k6_prepare_accounts-numbers :
      (users balance erc20_balance : ℕ) (entries : List (ℕ × Entry))
      → k6_prepare_accounts create_account transfer users balance erc20_balance ≡ ok entries
      → map (λ (p : ℕ × Entry). p.0) entries ≡ numbers_from 0 (2 * users)
  unfolding k6_prepare_accounts
  k6_prepare_accounts-numbers users balance erc20_balance entries r =
      rounds-numbers (2 * users) 0 balance erc20_balance entries r
