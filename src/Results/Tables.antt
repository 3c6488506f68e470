-- ===== src/Results/Tables.antt =====
-- The tables and the operations of `PostgresTestResultsHandler` that change them. A report that rows
-- of the other table refer to cannot be deleted, and a row cannot refer to a report that is not there.
-- The columns are taken as wide enough: the database refuses a text of more than 255 characters and a
-- number outside 32 bits, which the tables here store.
use neon_tests.Prelude.{
  ℕ, ◌+◌, [], ◌∷◌, ◌++◌, List, Option, none, some, map, any, ◌==◌, ◌&&◌, not, if◌then◌else◌, Bool,
  true, false,
}
use neon_tests.Prelude.Text.{Text, text_eq}
use neon_tests.Py.{Result, ok, err, integrity_error}
use neon_tests.Results.Order.{keep, sort, text_before}

pub data RepoType : Type 0 where
  proxy evm tests : RepoType

abbrev pub repo_eq : RepoType → RepoType → Bool
repo_eq proxy proxy = true
repo_eq evm evm = true
repo_eq tests tests = true
repo_eq _ _ = false

pub record CostReport : Type 0 where
  pub id : ℕ
  pub timestamp : ℕ
  pub repo : RepoType
  pub neon_evm_tag : Text
  pub proxy_tag : Text
  pub evm_commit_sha : Option Text
  pub proxy_commit_sha : Text

-- A row of the report data, of which every number is there.
pub record Row : Type 0 where
  pub dapp_name : Text
  pub action : Text
  pub acc_count : ℕ
  pub trx_count : ℕ
  pub gas_estimated : ℕ
  pub gas_used : ℕ
  pub compute_units : ℕ

pub record DappData : Type 0 where
  pub id : ℕ
  pub cost_report_id : ℕ
  pub row : Row

pub record Db : Type 0 where
  pub reports : List CostReport
  pub dapp_data : List DappData
  pub next_report : ℕ
  pub next_data : ℕ

-- `CostReport.neon_evm_tag if repo == "evm" else CostReport.proxy_tag`
abbrev pub tag_column : RepoType → CostReport → Text
tag_column evm r = r.neon_evm_tag
tag_column proxy r = r.proxy_tag
tag_column tests r = r.proxy_tag

abbrev pub is_tagged : RepoType → Text → CostReport → Bool
is_tagged repo tag r = repo_eq r.repo repo && text_eq (tag_column repo r) tag

unfoldable pub get_cost_report_ids : RepoType → Text → Db → List ℕ
get_cost_report_ids repo tag db = map (λ r. r.id) (keep (is_tagged repo tag) db.reports)

-- `column.in_(ids)`
abbrev pub is_in : List ℕ → ℕ → Bool
is_in ids n = any (λ k. k == n) ids

unfoldable pub delete_data_by_report_ids : List ℕ → Db → Db
delete_data_by_report_ids ids db = record {
  reports = db.reports;
  dapp_data = keep (λ d. not (is_in ids d.cost_report_id)) db.dapp_data;
  next_report = db.next_report;
  next_data = db.next_data;
}

unfoldable pub delete_reports : List ℕ → Db → Result Db
delete_reports ids db =
    if any (λ d. is_in ids d.cost_report_id) db.dapp_data
    then err integrity_error
    else ok (record {
      reports = keep (λ r. not (is_in ids r.id)) db.reports;
      dapp_data = db.dapp_data;
      next_report = db.next_report;
      next_data = db.next_data;
    })

-- `evm_commit_sha or None`
abbrev pub or_none : Text → Option Text
or_none [] = none
or_none (c ∷ cs) = some (c ∷ cs)

-- The time is that of the insertion.
unfoldable pub save_cost_report : ℕ → RepoType → Text → Text → Text → Text → Db → ℕ × Db
save_cost_report now repo evm_tag proxy_tag evm_sha proxy_sha db = (
  db.next_report,
  record {
    reports =
        db.reports
        ++ record {
          id = db.next_report;
          timestamp = now;
          repo = repo;
          neon_evm_tag = evm_tag;
          proxy_tag = proxy_tag;
          evm_commit_sha = or_none evm_sha;
          proxy_commit_sha = proxy_sha;
        }
          ∷ [];
    dapp_data = db.dapp_data;
    next_report = db.next_report + 1;
    next_data = db.next_data;
  },
)

-- `groupby("dapp_name")`: the groups in the order of their names, the rows of one in their order.
unfoldable pub grouped : List Row → List Row
unfolding sort
grouped rows = sort (λ x y. text_before y.dapp_name x.dapp_name) rows

abbrev pub number_rows : ℕ → ℕ → List Row → List DappData
number_rows report next [] = []
number_rows report next (r ∷ rs) =
    record { id = next; cost_report_id = report; row = r } ∷ number_rows report (next + 1) rs

abbrev pub count_rows : List Row → ℕ
count_rows [] = 0
count_rows (r ∷ rs) = 1 + count_rows rs

unfoldable pub save_cost_report_data : List Row → ℕ → Db → Result Db
unfolding grouped
save_cost_report_data [] report db = ok db
save_cost_report_data (r ∷ rs) report db =
    if is_in (map (λ r. r.id) db.reports) report
    then ok (record {
      reports = db.reports;
      dapp_data = db.dapp_data ++ number_rows report db.next_data (grouped (r ∷ rs));
      next_report = db.next_report;
      next_data = db.next_data + count_rows (r ∷ rs);
    })
    else err integrity_error
