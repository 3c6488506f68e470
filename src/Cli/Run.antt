-- ===== src/Cli/Run.antt =====
-- The command `run`: which tests are run, and with which arguments. Whether the tracer answers, and
-- whether the wallet's password is set, are given; the directory of the reports is not modelled.
use neon_tests.Prelude.{
  [], ◌∷◌, ◌++◌, List, Option, none, some, any, ◌==◌, if◌then◌else◌, Bool, true, false, drop,
}
use neon_tests.Prelude.Text.{Text, codes, text_eq}
use neon_tests.Py.{Result, ok, err, ◌>>=◌, ◌>>◌, guard, click_exception, assertion_error}
use neon_tests.ErrorLog.{
  TestGroup, economy, basic, tracer, services, oz, ui, evm, compiler_compatibility,
}
use neon_tests.Cli.Words.{split}

pub record RunOptions : Type 0 where
  pub name : TestGroup
  pub numprocesses : Option Text
  pub ui_item : Text
  pub network : Option Text
  pub case_pattern : Text
  pub keep_error_log : Bool
  pub marker : Option Text
  pub cost_reports_dir : Text

abbrev pub group_name : TestGroup → Text
group_name economy = codes "economy"
group_name basic = codes "basic"
group_name tracer = codes "tracer"
group_name services = codes "services"
group_name oz = codes "oz"
group_name ui = codes "ui"
group_name evm = codes "evm"
group_name compiler_compatibility = codes "compiler_compatibility"

-- `if option: command = f"{command}{text}"`
abbrev pub with_option : Text → Option Text → (Text → Text) → Text
with_option command none f = command
with_option command (some []) f = command
with_option command (some (c ∷ cs)) f = command ++ f (c ∷ cs)

-- `f"{network}"`
abbrev pub shown : Option Text → Text
shown none = codes "None"
shown (some n) = n

abbrev pub is_network : Text → Option Text → Bool
is_network n none = false
is_network n (some m) = text_eq m n

-- `not network`
abbrev pub is_unset : Option Text → Bool
is_unset none = true
is_unset (some []) = true
is_unset (some (c ∷ cs)) = false

pub network_of : TestGroup → Option Text → Option Text
network_of ui network = if is_unset network then some (codes "devnet") else network
network_of _ network = network

abbrev pub basic_command : Option Text → Text
basic_command network =
    if is_network (codes "mainnet") network
    then codes "py.test integration/tests/basic -m mainnet"
    else codes "py.test integration/tests/basic"

abbrev pub ui_command : Text → Text
ui_command item =
    if text_eq item (codes "all")
    then codes "py.test ui/tests"
    else codes "py.test ui/tests" ++ (codes "/test_" ++ (item ++ codes ".py"))

-- The command that the group begins with; the group `oz` has none.
pub group_command : Bool → Option Text → RunOptions → Result (Option Text)
group_command password network o = elim o.name [
  | economy ↦ ok (some (codes "py.test integration/tests/economy/test_economics.py"))
  | basic ↦ ok (
      some (
        with_option (basic_command network) o.numprocesses
          λ n. codes " --numprocesses " ++ (n ++ codes " --dist loadgroup")))
  | tracer ↦ ok (some (codes "py.test -n 5 integration/tests/tracer"))
  | services ↦ ok (
      some (
        with_option (codes "py.test integration/tests/services") o.numprocesses
          λ n. codes " --numprocesses " ++ n))
  | compiler_compatibility ↦ ok (
      some (
        with_option (codes "py.test integration/tests/compiler_compatibility") o.numprocesses
          λ n. codes " --numprocesses " ++ (n ++ codes " --dist loadscope")))
  | evm ↦ ok (
      some (
        with_option (codes "py.test integration/tests/neon_evm") o.numprocesses
          λ n. codes " --numprocesses " ++ n))
  | oz ↦ ok none
  | ui ↦ if password then ok (some (ui_command o.ui_item)) else err click_exception
]

abbrev pub has_blank : Text → Bool
has_blank t = any (λ c. c == 32) t

-- A pattern with a blank is put in quotes.
abbrev pub quoted : Text → Text → Text
quoted flag t = if has_blank t then flag ++ (codes "\"" ++ (t ++ codes "\"")) else flag ++ t

unfoldable pub full_command : Option Text → RunOptions → Text → Text
full_command network o command =
    let a = with_option command (some o.case_pattern) (quoted (codes " -vk ")) in
    let b = with_option a o.marker (quoted (codes " -m ")) in
    let c =
      b
      ++ (codes " -s --network="
          ++ (shown network ++ (codes " --make-report --test-group " ++ group_name o.name))) in
    let d = if o.keep_error_log then c ++ codes " --keep-error-log" else c in
    with_option d (some o.cost_reports_dir) λ dir. codes " --cost_reports_dir " ++ dir

-- What the command does: OpenZeppelin's tests, with the log cleared before or not, or pytest.
pub data RunAction : Type 0 where
  openzeppelin : Bool → RunAction
  pytest : List Text → RunAction

-- `if name == "tracer": if network != "geth": assert …`
pub check_tracer : Bool → Option Text → TestGroup → Result (Unit {0})
check_tracer ready network tracer =
    if is_network (codes "geth") network then ok tt else guard ready assertion_error
check_tracer ready network _ = ok tt

abbrev pub run_with : Bool → Option Text → RunOptions → Option Text → Result RunAction
run_with ready network o none = ok (openzeppelin (if o.keep_error_log then false else true))
run_with ready network o (some command) =
    check_tracer ready network o.name
    >> ok (pytest (drop 1 (split (full_command network o command))))

unfoldable pub run : Bool → Bool → RunOptions → Result RunAction
unfolding network_of group_command check_tracer full_command split
run password ready o = do
  let network = network_of o.name o.network
  command ← group_command password network o
  run_with ready network o command
