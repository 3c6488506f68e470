-- ===== src/Results/Tests.antt =====
-- The theorems on the results at concrete tables.
use neon_tests.Prelude.{
  ℕ, ◌+◌, ◌-◌, ◌*◌, ◌≤◌, ◌≡◌, ◌≢◌, refl, [], ◌∷◌, ◌++◌, List, none, true, if◌then◌else◌, ltb, arith,
  length, All,
}
use neon_tests.Prelude.Text.{is_digit, Text, codes}
use neon_tests.Py.{ok}
use neon_tests.Results.Order.{keep}
use neon_tests.Results.Version.{is_github_tag, matches_github_tag}
use neon_tests.Results.Tables.{evm, CostReport, Row, Db, is_tagged, get_cost_report_ids, grouped}
use neon_tests.Results.Save.{do_delete, save_dapps_cost_report_to_db}
use neon_tests.Results.Saved.{IsWellFormed, rows_of}
use neon_tests.Results.Replaces.{save_dapps-replaces}
use neon_tests.Results.PreviousTags.{
  version_of, get_previous_tags, Entry, latest_first, get_historical_data,
}
use neon_tests.Results.Older.{IsVersionOrder, IsDescending, get_previous_tags-older}
use neon_tests.Results.History.{IsCompared, get_historical_data-IsCompared}

abbrev report_at : ℕ → Text → CostReport
report_at n tag = record {
  id = n;
  timestamp = 100 + n;
  repo = evm;
  neon_evm_tag = tag;
  proxy_tag = codes "latest";
  evm_commit_sha = none;
  proxy_commit_sha = codes "ab";
}

abbrev swap_row : Row
swap_row = record {
  dapp_name = codes "swap";
  action = codes "add";
  acc_count = 1;
  trx_count = 2;
  gas_estimated = 3;
  gas_used = 4;
  compute_units = 5;
}

abbrev tables : Db
tables = record {
  reports = report_at 1 (codes "v1.2.3") ∷ report_at 2 (codes "v1.1.0") ∷ [];
  dapp_data =
      record { id = 1; cost_report_id = 1; row = swap_row }
      ∷ record { id = 2; cost_report_id = 2; row = swap_row }
      ∷ [];
  next_report = 3;
  next_data = 3;
}

tables-IsWellFormed : IsWellFormed tables
tables-IsWellFormed = record {
  below = (omega arith, (omega arith, tt));
  owned = (refl, (refl, tt));
}

save_dapps-replaces_example :
    (db' : Db) × (save_dapps_cost_report_to_db 200 evm
        (codes "v1.2.3")
        (codes "latest")
        []
        (codes "cd")
        (swap_row ∷ [])
        tables
      ≡ ok db')
    × IsWellFormed db'
    × (get_cost_report_ids evm (codes "v1.2.3") db'
        ≡ (if do_delete (codes "v1.2.3") (codes "latest")
            then []
            else get_cost_report_ids evm (codes "v1.2.3") tables)
          ++ 3 ∷ [])
    × (rows_of 3 db' ≡ grouped (swap_row ∷ []))
save_dapps-replaces_example =
    save_dapps-replaces 200 evm (codes "v1.2.3") (codes "latest") [] (codes "cd") (swap_row ∷ [])
      tables tables-IsWellFormed

-- A stand-in for the versions: the digits of the name as one number.
abbrev digits_from : ℕ → Text → ℕ
digits_from n [] = n
digits_from n (c ∷ cs) = digits_from (if is_digit c then 10 * n + (c - 48) else n) cs

ltb-IsVersionOrder : IsVersionOrder ltb
ltb-IsVersionOrder = record {
  asym = λ x y h. ground arith;
  trans = λ x y z h k. ground arith;
  older = λ x y z h k. ground arith;
}

get_previous_tags-older_example :
    (ts : List Text) × (get_previous_tags (digits_from 0) ltb evm (codes "v1.2.3") 5 tables ≡ ok ts)
    × All
        (λ t.
          ltb (version_of (digits_from 0) ltb t) (version_of (digits_from 0) ltb (codes "v1.2.3"))
          ≡ true)
        ts
    × All (λ t. matches_github_tag t ≡ true) ts
    × IsDescending (digits_from 0) ltb ts
    × (length ts ≤ 5)
unfolding is_github_tag
get_previous_tags-older_example =
    get_previous_tags-older (digits_from 0) ltb ltb-IsVersionOrder evm (codes "v1.2.3") 5 tables
      refl

has_latest : latest_first (keep (is_tagged evm (codes "v1.2.3")) tables.reports) ≢ []
unfolding latest_first keep
has_latest e = cc

get_historical_data-IsCompared_example :
    (es : List Entry) × (get_historical_data 5 evm (codes "v1.2.3") (codes "v1.1.0" ∷ []) tables
      ≡ ok es)
    × All (λ e. IsCompared evm (codes "v1.2.3") (codes "v1.1.0" ∷ []) e.report) es
get_historical_data-IsCompared_example =
    get_historical_data-IsCompared 5 evm (codes "v1.2.3") (codes "v1.1.0" ∷ []) tables (omega arith)
      has_latest
