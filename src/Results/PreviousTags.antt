-- ===== src/Results/PreviousTags.antt =====
-- `get_previous_tags` and `get_historical_data` of db_handler.py. The versions that the packaging
-- library reads off the names, and their order, are parameters; a query without an order is
-- answered in the order of insertion.
use neon_tests.Prelude.{
  zero, suc, ℕ, [], ◌∷◌, ◌++◌, List, Option, none, some, map, any, ltb, ◌==◌, ◌&&◌, ◌||◌, not,
  if◌then◌else◌, Bool, take, drop,
}
use neon_tests.Prelude.Text.{Text, text_eq, codes}
use neon_tests.Py.{Result, ok, err, ◌>>◌, guard, assertion_error, attribute_error, database_error}
use neon_tests.Results.Order.{keep, sort, text_before}
use neon_tests.Results.Version.{
  is_github_tag, matches_github_tag, remove_heading_chars_till_first_digit,
}
use neon_tests.Results.Tables.{
  RepoType, repo_eq, CostReport, DappData, Row, Db, tag_column, is_tagged, is_in,
}

abbrev pub is_among : List Text → Text → Bool
is_among ts t = any (λ u. text_eq u t) ts

-- `distinct(column)`
unfoldable pub distinct : List Text → List Text
unfolding keep
distinct [] = []
distinct (t ∷ ts) = t ∷ keep (λ u. not (text_eq t u)) (distinct ts)

module _ {V : Type 0} (parse : Text → V) (before : V → V → Bool) where
  abbrev pub version_of : Text → V
  version_of t = parse (remove_heading_chars_till_first_digit t)

  -- `sorted(…, key=…, reverse=True)`
  unfoldable pub newest_first : List Text → List Text
  unfolding sort
  newest_first ts = sort (λ x y. before (version_of x) (version_of y)) ts

  -- From the first tag on that is older.
  unfoldable pub from_older : V → List Text → List Text
  from_older latest [] = []
  from_older latest (t ∷ ts) = if before (version_of t) latest then t ∷ ts else from_older latest ts

  unfoldable pub get_previous_tags : RepoType → Text → ℕ → Db → Result (List Text)
  unfolding distinct newest_first from_older is_github_tag matches_github_tag keep
  get_previous_tags repo tag limit db = do
    guard (is_github_tag tag) assertion_error
    let tags = distinct (map (tag_column repo) (keep (λ r. repo_eq r.repo repo) db.reports))
    ok (take limit (from_older (version_of tag) (newest_first (keep matches_github_tag tags))))

-- `previous_tags` of `compare_dapp_results` in clickfile.py.
module _ {V : Type 0} (parse : Text → V) (before : V → V → Bool) where
  unfoldable pub previous_tags : RepoType → Text → Text → ℕ → Db → Result (List Text)
  unfolding get_previous_tags is_github_tag
  previous_tags repo compared version_branch depth db =
      let tags = get_previous_tags parse before repo compared depth db in
      if is_github_tag compared
      then tags
      else elim version_branch [ [] ↦ ok (codes "latest" ∷ []) | c ∷ cs ↦ ok ((c ∷ cs) ∷ []) ]

-- A row of the data frame.
pub record Entry : Type 0 where
  pub report : CostReport
  pub tag : Text
  pub row : Row

-- `order_by(desc(timestamp))`
unfoldable pub latest_first : List CostReport → List CostReport
unfolding sort
latest_first rs = sort (λ x y. ltb x.timestamp y.timestamp) rs

abbrev pub first : List CostReport → Option CostReport
first [] = none
first (r ∷ rs) = some r

abbrev pub later_or : Option CostReport → Option CostReport → Option CostReport
later_or none o = o
later_or (some r) o = some r

-- `dict.get(id)` of the dictionary, where a later report takes the place of an earlier one.
abbrev pub report_of : ℕ → List CostReport → Option CostReport
report_of id [] = none
report_of id (r ∷ rs) = later_or (report_of id rs) (if r.id == id then some r else none)

abbrev pub add_entry : RepoType → Option CostReport → DappData → List Entry → List Entry
add_entry repo none d rest = rest
add_entry repo (some r) d rest = record { report = r; tag = tag_column repo r; row = d.row } ∷ rest

unfoldable pub entries : RepoType → List CostReport → List DappData → List Entry
entries repo rs [] = []
entries repo rs (d ∷ ds) = add_entry repo (report_of d.cost_report_id rs) d (entries repo rs ds)

-- The order of the frame: time, application, action.
abbrev pub entry_before : Entry → Entry → Bool
entry_before x y =
    ltb x.report.timestamp y.report.timestamp
    || (x.report.timestamp == y.report.timestamp
        && (text_before x.row.dapp_name y.row.dapp_name
            || (text_eq x.row.dapp_name y.row.dapp_name && text_before x.row.action y.row.action)))

-- A merge event has its own tag among the previous ones, and leaves out the newest report.
unfoldable pub previous_reports : RepoType → Text → List Text → ℕ → Db → List CostReport
unfolding latest_first keep
previous_reports repo latest_tag previous limit db =
    let offset = if is_among previous latest_tag then 1 else 0 in
    take limit (
      drop offset (
        latest_first
          (keep (λ r. repo_eq r.repo repo && is_among previous (tag_column repo r)) db.reports)))

abbrev pub is_of_last : List Text → List Text → List ℕ → DappData → Bool
is_of_last dapps actions ids d =
    is_in ids d.cost_report_id && (is_among dapps d.row.dapp_name && is_among actions d.row.action)

-- The rows of the last report and of the earlier ones, with the applications and the actions that
-- the last one has.
pub found_rows : List CostReport → CostReport → Db → List DappData
unfolding keep
found_rows earlier last db =
    let own = keep (λ d. d.cost_report_id == last.id) db.dapp_data in
    let dapps = map (λ d. d.row.dapp_name) own in
    let actions = map (λ d. d.row.action) own in
    keep (is_of_last dapps actions (map (λ r. r.id) earlier ++ last.id ∷ [])) db.dapp_data

-- The frame, given the last report.
unfoldable pub frame : RepoType → List CostReport → Db → Option CostReport → Result (List Entry)
unfolding entries sort found_rows
frame repo earlier db none = err attribute_error
frame repo earlier db (some last) =
    ok (sort (λ x y. entry_before y x) (entries repo (last ∷ earlier) (found_rows earlier last db)))

-- The query takes `limit(depth - 1)`: for the depth 0 the limit is negative, which PostgreSQL refuses.
unfoldable pub get_historical_data : ℕ → RepoType → Text → List Text → Db → Result (List Entry)
unfolding previous_reports latest_first frame keep
get_historical_data zero repo latest_tag previous db = err database_error
get_historical_data (suc limit) repo latest_tag previous db =
    frame repo (previous_reports repo latest_tag previous limit db) db
      (first (latest_first (keep (is_tagged repo latest_tag) db.reports)))
