-- ===== src/Reports/Prepare.antt =====
-- The data of the cost reports: the rest of `prepare_report_data`, and the order of the rows in
-- `report_data_to_markdown`, of deploy/cli/cost_report.py; what
-- `get_solana_accounts_transactions_compute_units` and `set_github_env` of
-- deploy/cli/infrastructure.py compute; the comment that deploy/cli/github_api_client.py deletes. The
-- conversion of a name into lower case without white space around it is given.
pub mod Split
use neon_tests.Prelude.{
  ℕ, zero, suc, ◌+◌, ◌*◌, ◌-◌, [], ◌∷◌, ◌++◌, List, Option, none, some, ltb, ◌==◌, ◌&&◌, ◌||◌, not,
  if◌then◌else◌, map, reverse, length, all, Bool, true, false,
}
use neon_tests.Prelude.Text.{Text, codes, text_eq, is_digit, contains}
use neon_tests.Prelude.Dict.{Dict, lookup, put}
use neon_tests.Py.{
  Result, ok, err, or_raise, ◌>>=◌, map_result, plain_exception, attribute_error, index_error,
  runtime_error,
}
use neon_tests.Results.Order.{keep, sort, text_before}
use neon_tests.Results.PreviousTags.{distinct}
use neon_tests.Cli.Words.{is_space}
use neon_tests.Reports.{decimal, unique_names}

pub record Action : Type 0 where
  pub name : Text
  pub tx : Text
  pub used_gas : ℕ

-- A report of a file, whose actions may be missing.
pub record Report : Type 0 where
  pub name : Text
  pub actions : Option (List Action)

-- The content of a file: a list of reports, or one.
pub data ReportFile : Type 0 where
  several : List Report → ReportFile
  single : Report → ReportFile

-- A later report of the same name replaces the actions of an earlier one.
abbrev pub add_report : Report → Dict (List Action) → Dict (List Action)
add_report r reports = with_actions r.actions
  where
    with_actions : Option (List Action) → Dict (List Action)
    with_actions none = reports
    with_actions (some actions) = put r.name actions reports

unfoldable pub add_all : List Report → Dict (List Action) → Dict (List Action)
add_all [] reports = reports
add_all (r ∷ rs) reports = add_all rs (add_report r reports)

unfoldable pub merge_files : List ReportFile → Dict (List Action) → Dict (List Action)
unfolding add_all
merge_files [] reports = reports
merge_files (several rs ∷ fs) reports = merge_files fs (add_all rs reports)
merge_files (single r ∷ fs) reports = merge_files fs (add_report r reports)

-- A row of the data.
pub record Row : Type 0 where
  pub dapp_name : Text
  pub action : Text
  pub acc_count : ℕ
  pub trx_count : ℕ
  pub gas_estimated : Option ℕ
  pub gas_used : ℕ
  pub compute_units : ℕ

-- `int(tx.gas) if tx and tx.gas else None`
abbrev pub estimated_of : Option ℕ → Option ℕ
estimated_of none = none
estimated_of (some zero) = none
estimated_of (some (suc n)) = some (suc n)

-- The names of the actions, number by number.
abbrev pub zip_with : {A B C : Type 0} → (A → B → C) → List A → List B → List C
zip_with f [] ys = []
zip_with f (x ∷ xs) [] = []
zip_with f (x ∷ xs) (y ∷ ys) = f x y ∷ zip_with f xs ys

module _ (normal : Text → Text) (units_of : Text → Result (ℕ × ℕ × ℕ))
    (gas_of : Text → Option ℕ) where
  abbrev pub row_of : Text → Text × Action → Result Row
  row_of app (name, a) = do
    (accounts, trx, units) ← units_of a.tx
    ok (record {
      dapp_name = normal app;
      action = name;
      acc_count = accounts;
      trx_count = trx;
      gas_estimated = estimated_of (gas_of a.tx);
      gas_used = a.used_gas;
      compute_units = units;
    })

  unfoldable pub app_rows : Text → List Action → Result (List Row)
  unfolding unique_names
  app_rows app actions = map_result (row_of app) (
      zip_with (λ n a. (n, a)) (unique_names (map (λ (a : Action). normal a.name) actions)) actions)

  unfoldable pub report_rows : Dict (List Action) → Result (List Row)
  unfolding app_rows
  report_rows [] = ok []
  report_rows ((app, actions) ∷ reports) = do
    rows ← app_rows app actions
    more ← report_rows reports
    ok (rows ++ more)

  abbrev pub nonempty_rows : List Row → Result (List Row)
  nonempty_rows [] = err plain_exception
  nonempty_rows (r ∷ rs) = ok (r ∷ rs)

  pub prepare_report_data : List ReportFile → Result (List Row)
  unfolding merge_files report_rows
  prepare_report_data files = do rows ← report_rows (merge_files files []); nonempty_rows rows

-- A line end behind which nothing stands.
abbrev pub last_line_end : ℕ → Text → Option Text
last_line_end c [] = if c == 10 then some [] else none
last_line_end c (d ∷ ds) = none

abbrev pub with_digit : ℕ → Option Text → Option Text
with_digit c none = none
with_digit c (some ds) = some (c ∷ ds)

-- The digits up to the end, or up to a last line end: `(\d*)$`.
abbrev pub last_digits : Text → Option Text
last_digits [] = some []
last_digits (c ∷ cs) =
    let more = last_digits cs in if is_digit c then with_digit c more else last_line_end c cs

-- The white space and the digits at the end of a text: `\s*(\d*)$` on all of it.
abbrev pub after_space : Text → Option Text
after_space [] = some []
after_space (c ∷ cs) =
    let later = after_space cs in if is_space c then later else last_digits (c ∷ cs)

abbrev pub number_of : ℕ → Text → ℕ
number_of n [] = n
number_of n (c ∷ cs) = number_of (10 * n + (c - 48)) cs

abbrev pub split_or : Text → ℕ → Option Text → Result (Text × ℕ) → Result (Text × ℕ)
split_or piece c none later = later
split_or piece c (some digits) later = ok (piece ++ c ∷ [], number_of 0 digits)

-- `(.+?)\s*(\d*)$`, behind the characters that the first group has: no line end can be one of them.
unfoldable pub split_from : Text → Text → Result (Text × ℕ)
unfolding is_space
split_from piece [] = err attribute_error
split_from piece (c ∷ cs) =
    let longer = split_from (piece ++ c ∷ []) cs in
    if c == 10 then err attribute_error else split_or piece c (after_space cs) longer

unfoldable pub split_action : Text → Result (Text × ℕ)
unfolding split_from
split_action action = split_from [] action

-- A row with the text and the number of its action.
abbrev pub Keyed : Type 0
Keyed = Text × ℕ × Row

abbrev pub keyed : Row → Result Keyed
keyed r = do (text, number) ← split_action r.action; ok (text, number, r)

-- `sort_values(by=['ACTION_TEXT', 'ACTION_NUM'])`
abbrev pub is_after : Keyed → Keyed → Bool
is_after (t, n, r) (u, m, s) = text_before u t || (text_eq t u && ltb m n)

unfoldable pub dapp_section : List Row → Text → Result (Text × List Row)
unfolding split_action sort keep
dapp_section rows dapp = do
  ks ← map_result keyed (keep (λ (r : Row). text_eq r.dapp_name dapp) rows)
  ok (dapp, map (λ (k : Keyed). k.2) (sort is_after ks))

-- The sections of the report, with the rows of their tables.
pub report_sections : List Row → Result (List (Text × List Row))
unfolding dapp_section distinct
report_sections rows =
    map_result (dapp_section rows) (distinct (map (λ (r : Row). r.dapp_name) rows))

-- The units of the last message that tells of them; `consumed` is the pattern's number.
module _ (consumed : Text → Option ℕ) where
  abbrev pub first_units : List Text → ℕ
  first_units [] = 0
  first_units (m ∷ ms) = units_or (consumed m) (first_units ms)
    where
      units_or : Option ℕ → ℕ → ℕ
      units_or none later = later
      units_or (some n) later = n

  -- The log messages of a transaction, which may be missing.
  abbrev pub trx_units : Option (List Text) → ℕ
  trx_units none = 0
  trx_units (some messages) = first_units (reverse messages)

  pub compute_units : List (Option (List Text)) → ℕ
  compute_units [] = 0
  compute_units (t ∷ ts) = trx_units t + compute_units ts

-- `len(alt[0].writable_indexes) + len(alt[0].readonly_indexes)`, or the account keys.
abbrev pub account_count : List (ℕ × ℕ) → (keys : ℕ) → ℕ
account_count [] keys = keys
account_count ((writable, readonly) ∷ tables) keys = writable + readonly

pub get_solana_accounts_transactions_compute_units :
    (consumed : Text → Option ℕ)
    → (transactions : List (Option (List Text))) → (tables : List (ℕ × ℕ)) → (keys : ℕ)
    → Result (ℕ × ℕ × ℕ)
unfolding compute_units
get_solana_accounts_transactions_compute_units consumed [] tables keys = err index_error
get_solana_accounts_transactions_compute_units consumed (t ∷ ts) tables keys =
    ok (account_count tables keys, length (t ∷ ts), compute_units consumed (t ∷ ts))

-- What is appended to the file of the environment, with `upper` as the name is written.
pub set_github_env : (upper : Text → Text) → Dict Text → Text
set_github_env upper [] = []
set_github_env upper ((key, value) ∷ envs) =
    10 ∷ upper key ++ 61 ∷ value ++ set_github_env upper envs

-- A comment of a pull request.
pub record Comment : Type 0 where
  pub id : ℕ
  pub body : Text

abbrev pub report_title : Text
report_title = codes "<summary>Dapps report</summary>"

unfoldable pub first_report : List Comment → Option ℕ
unfolding contains
first_report [] = none
first_report (c ∷ cs) =
    let later = first_report cs in if contains report_title c.body then some c.id else later

-- An id of 0 counts as none. The URL without the number of the pull request is given.
abbrev pub comment_url : Text → Option ℕ → Option Text
comment_url repo_url none = none
comment_url repo_url (some zero) = none
comment_url repo_url (some (suc n)) = some (repo_url ++ codes "/comments/" ++ decimal (suc n))

-- The URL of the comment that is deleted.
pub delete_last_comment : (repo_url : Text) → List Comment → Option Text
unfolding first_report
delete_last_comment repo_url comments = comment_url repo_url (first_report comments)

-- The body that is posted, and the result by the status of the response.
pub add_comment_to_pr : Text → (status : ℕ) → Text × Result (Unit {0})
add_comment_to_pr msg status = (
  codes "<details>" ++ report_title ++ codes "\n\n" ++ msg ++ codes "\n\n",
  if status == 201 then ok tt else err runtime_error,
)
