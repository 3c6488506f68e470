-- ===== src/K6.antt =====
-- utils/k6_helpers.py and the command of clickfile.py that runs the k6 tests. The accounts that are
-- made, the receipts of the transfers and the ends of the shell's commands are given.
pub mod Prepared
use neon_tests.Prelude.{
  ℕ, zero, suc, ◌+◌, ◌*◌, [], ◌∷◌, ◌++◌, List, Option, none, some, ◌==◌, drop, if◌then◌else◌, Bool,
}
use neon_tests.Prelude.Text.{Text, codes, text_eq}
use neon_tests.Prelude.Dict.{Dict, put}
use neon_tests.Py.{Result, ok, err, ◌>>=◌, ◌>>◌, guard, assertion_error}
use neon_tests.Cli.Shell.{Ran, then_run, run_or_exit}

pub record Account : Type 0 where
  pub address : Text
  -- as `key.hex()` prints it
  pub key : Text

pub record Entry : Type 0 where
  pub sender_address : Text
  pub sender_key : Text
  pub receiver_address : Text

-- The account that the call with this number makes for a balance, and the status of the transfer that
-- follows in a round.
module _ (create_account : ℕ → ℕ → Result Account) (transfer : ℕ → Account → ℕ → Result ℕ) where
  abbrev pub entry_of : Account → Account → Entry
  entry_of sender receiver = record {
    sender_address = sender.address;
    sender_key = drop 2 sender.key;
    receiver_address = receiver.address;
  }

  -- So many rounds from the round `i` on.
  unfoldable pub rounds : (left i balance erc20_balance : ℕ) → Result (List (ℕ × Entry))
  rounds zero i balance erc20_balance = ok []
  rounds (suc left) i balance erc20_balance = do
    sender ← create_account (2 * i) balance
    receiver ← create_account (2 * i + 1) 0
    status ← transfer i sender erc20_balance
    guard (status == 1) assertion_error
    entries ← rounds left (suc i) balance erc20_balance
    ok ((i, entry_of sender receiver) ∷ entries)

  -- The accounts that are written to the file.
  unfoldable pub k6_prepare_accounts : (users balance erc20_balance : ℕ) → Result (List (ℕ × Entry))
  unfolding rounds
  k6_prepare_accounts users balance erc20_balance = rounds (2 * users) 0 balance erc20_balance

abbrev pub with_bank : Option Text → Dict Text → Dict Text
with_bank none env = env
with_bank (some bank) env = put (codes "K6_BANK_ACCOUNT") bank env

-- The variables of the environment, with the texts of the options.
unfoldable pub k6_set_envs :
    (network contract owner users_number initial_balance : Text)
    → Option Text
    → Dict Text
    → Dict Text
k6_set_envs network contract owner users_number initial_balance bank env =
    put (codes "K6_ERC20_OWNER") owner (
      put (codes "K6_ERC20_ADDRESS") contract (
        with_bank bank (
          put (codes "K6_INITIAL_BALANCE") initial_balance
            (put (codes "K6_USERS_NUMBER") users_number (put (codes "K6_NETWORK") network env)))))

-- The command, with what comes between the compiler and the tests as one part.
pub k6_run : (exit_code : Text → ℕ) (prepared : Result (Unit {0})) (script : Text) → Ran
k6_run exit_code prepared script =
    then_run
      (run_or_exit exit_code (
        codes
          "solc --abi ./contracts/EIPs/ERC20/ERC20.sol -o ./loadtesting/k6/contracts/ERC20 --overwrite"))
      (then_run ([], prepared)
        (run_or_exit exit_code
          (codes "./k6 run " ++ script ++ codes " -o 'prometheus=namespace=k6'")))
