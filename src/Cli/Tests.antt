-- ===== src/Cli/Tests.antt =====
-- The theorems on the commands at concrete calls.
use neon_tests.Prelude.{◌+◌, ℕ, ◌≡◌, refl, [], ◌∷◌, ◌++◌, List, none, some, Bool, true, false}
use neon_tests.Prelude.Text.{Text, codes, text_eq}
use neon_tests.ErrorLog.{basic}
use neon_tests.Cli.Words.{is_space}
use neon_tests.Cli.Run.{RunOptions, run}
use neon_tests.Cli.Cases.{IsSplit, run-splits_case}
use neon_tests.Cli.Allure.{number_from, first_number, latest_run, history_of, get_allure_history}
use neon_tests.Cli.Allure.Digits.{prefixes_of, get_allure_history-digits}
use neon_tests.Cli.Openzeppelin.{Jobs}
use neon_tests.Reports.{digits, decimal}
use neon_tests.Cli.Deploy.{Repository, proxy_repo, evm_repo, faucet_repo, deploy, Item}
use neon_tests.Cli.Tags.{IsImage, deploy-IsImage}

abbrev two_cases : RunOptions
two_cases = record {
  name = basic;
  numprocesses = none;
  ui_item = codes "all";
  network = some (codes "devnet");
  case_pattern = codes "a or b";
  keep_error_log = false;
  marker = none;
  cost_reports_dir = [];
}

abbrev two_cases_args : List Text
two_cases_args =
    codes "integration/tests/basic"
    ∷ codes "-vk"
    ∷ codes "\"a"
    ∷ codes "or"
    ∷ codes "b\""
    ∷ codes "-s"
    ∷ codes "--network=devnet"
    ∷ codes "--make-report"
    ∷ codes "--test-group"
    ∷ codes "basic"
    ∷ []

run-splits_case_example : IsSplit true two_cases two_cases_args
unfolding run is_space
run-splits_case_example = run-splits_case true true two_cases two_cases_args refl refl

abbrev only_evm : Repository → Text → Bool
only_evm evm_repo t = text_eq t (codes "feature")
only_evm proxy_repo t = false
only_evm faucet_repo t = false

deploy-IsImage_example :
    IsImage only_evm evm_repo
      (deploy only_evm (codes "12/merge") (codes "feature") (codes "develop") (codes "0")).evm_tag
    × IsImage only_evm proxy_repo
        (deploy only_evm
          (codes "12/merge")
          (codes "feature")
          (codes "develop")
          (codes "0")).proxy_tag
    × IsImage only_evm faucet_repo
        (deploy only_evm
          (codes "12/merge")
          (codes "feature")
          (codes "develop")
          (codes "0")).faucet_tag
deploy-IsImage_example =
    deploy-IsImage only_evm (codes "12/merge") (codes "feature") (codes "develop") (codes "0")

abbrev some_items : List Item
some_items = (codes "a.sol", some (1 ∷ [])) ∷ (codes "b.sol", none) ∷ []

-- The history of the devnet's reports, of a branch whose name has digits.
abbrev numbered_branch : Text
numbered_branch = codes "basic/devnet/v2.1"

get_allure_history-digits_example :
    (get_allure_history numbered_branch (prefixes_of numbered_branch []) ≡ none)
    × ((n : ℕ) × (first_number (numbered_branch ++ 47 ∷ []) ≡ some n)
        × (get_allure_history numbered_branch
              (prefixes_of numbered_branch (codes "57" ∷ codes "58" ∷ []))
            ≡ history_of numbered_branch (some n)))
get_allure_history-digits_example =
    get_allure_history-digits numbered_branch (codes "57") (codes "58" ∷ []) refl

-- The build that is taken there is not the latest one.
numbered_branch_history :
    get_allure_history numbered_branch (prefixes_of numbered_branch (codes "57" ∷ codes "58" ∷ []))
    ≡ some (codes "basic/devnet/v2.1/2/history")
unfolding get_allure_history latest_run first_number number_from decimal digits
numbered_branch_history = refl

-- Two jobs for three tests, the first of which has begun.
abbrev files : List Text
files = codes "a.test.js" ∷ codes "b.test.js" ∷ codes "c.test.js" ∷ []

abbrev seeds : ℕ → ℕ
seeds n = 100 + n

abbrev first_begun : Jobs ℕ
first_begun = record {
  keys = record { free = 101 ∷ []; used = (codes "a.test.js", 100) ∷ [] };
  waiting = codes "b.test.js" ∷ codes "c.test.js" ∷ [];
}
