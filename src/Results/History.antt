-- ===== src/Results/History.antt =====
-- Which reports `get_historical_data` compares.
use neon_tests.Prelude.{
  All-map, ℕ, zero, suc, ◌≤◌, arith, ◌≡◌, ◌≢◌, refl, [], ◌∷◌, List, Option, none, some, ◌==◌, ◌&&◌,
  ◌||◌, if◌then◌else◌, Bool, true, false, All,
}
use neon_tests.Prelude.Text.{Text, text_eq}
use neon_tests.Py.{ok}
use neon_tests.Results.Order.{keep, sort, All-sort, keep-passes}
use neon_tests.Results.Tables.{RepoType, repo_eq, CostReport, DappData, Db, tag_column, is_tagged}
use neon_tests.Results.PreviousTags.{
  is_among, Entry, latest_first, first, later_or, report_of, add_entry, entries, entry_before,
  previous_reports, found_rows, frame, get_historical_data,
}
use neon_tests.Results.Older.{All-take, All-drop}

module _ (P : CostReport → Type 0) where
  IsOf : Option CostReport → Type 0
  IsOf none = Unit
  IsOf (some r) = P r

  IsOf-if : (b : Bool) (r : CostReport) → P r → IsOf (if b then some r else none)
  unfolding IsOf
  IsOf-if true r h = h
  IsOf-if false r h = tt

  IsOf-later : (o q : Option CostReport) → IsOf o → IsOf q → IsOf (later_or o q)
  unfolding IsOf
  IsOf-later none q h k = k
  IsOf-later (some r) q h k = h

  report_of-IsOf : (id : ℕ) (rs : List CostReport) → All P rs → IsOf (report_of id rs)
  unfolding IsOf
  report_of-IsOf id [] h = tt
  report_of-IsOf id (q ∷ rs) (h, hs) =
      IsOf-later (report_of id rs) _ (report_of-IsOf id rs hs) (IsOf-if (q.id == id) q h)

  add_entry-All :
      (repo : RepoType) (o : Option CostReport) (d : DappData) (es : List Entry)
      → IsOf o
      → All (λ e. P e.report) es
      → All (λ e. P e.report) (add_entry repo o d es)
  unfolding IsOf
  add_entry-All repo none d es h hs = hs
  add_entry-All repo (some r) d es h hs = (h, hs)

  entries-All :
      (repo : RepoType) (rs : List CostReport) (ds : List DappData)
      → All P rs
      → All (λ e. P e.report) (entries repo rs ds)
  unfolding entries
  entries-All repo rs [] h = tt
  entries-All repo rs (d ∷ ds) h =
      add_entry-All repo (report_of d.cost_report_id rs) d (entries repo rs ds)
        (report_of-IsOf d.cost_report_id rs h) (entries-All repo rs ds h)

-- A report of the repository with the latest tag or one of the previous tags.
abbrev pub IsCompared : RepoType → Text → List Text → CostReport → Type 0
IsCompared repo latest previous r =
    (repo_eq r.repo repo ≡ true)
    × ((text_eq (tag_column repo r) latest || is_among previous (tag_column repo r)) ≡ true)

IsCompared-latest :
    (repo : RepoType) (latest : Text) (previous : List Text) (r : CostReport)
    → is_tagged repo latest r ≡ true
    → IsCompared repo latest previous r
IsCompared-latest repo latest previous r h = and-or _ _ _ h
  where
    and-or : (a b c : Bool) → (a && b) ≡ true → (a ≡ true) × ((b || c) ≡ true)
    and-or true true c h = (refl, refl)
    and-or true false c h = cc
    and-or false b c h = cc

IsCompared-previous :
    (repo : RepoType) (latest : Text) (previous : List Text) (r : CostReport)
    → (repo_eq r.repo repo && is_among previous (tag_column repo r)) ≡ true
    → IsCompared repo latest previous r
IsCompared-previous repo latest previous r h = and-or _ _ _ h
  where
    and-or : (a b c : Bool) → (a && c) ≡ true → (a ≡ true) × ((b || c) ≡ true)
    and-or true true true h = (refl, refl)
    and-or true false true h = (refl, refl)
    and-or true b false h = cc
    and-or false b c h = cc

earlier-All :
    (repo : RepoType) (latest : Text) (previous : List Text) (limit : ℕ) (db : Db)
    → All (IsCompared repo latest previous) (previous_reports repo latest previous limit db)
unfolding previous_reports latest_first
earlier-All repo latest previous limit db = All-take _ limit _ (
    All-drop _ (if is_among previous latest then 1 else 0) _ (
      All-sort _ _ _ (
        All-map _ _ (IsCompared-previous repo latest previous) _ (
          keep-passes (λ r. repo_eq r.repo repo && is_among previous (tag_column repo r))
            db.reports))))

latest-All :
    (repo : RepoType) (latest : Text) (previous : List Text) (db : Db)
    → All (IsCompared repo latest previous) (latest_first (keep (is_tagged repo latest) db.reports))
unfolding latest_first
latest-All repo latest previous db = All-sort _ _ _ (
    All-map _ _ (IsCompared-latest repo latest previous) _
      (keep-passes (is_tagged repo latest) db.reports))

-- Whether a call of `frame` returns only compared entries, and with a report always returns.
frame-All :
    (repo : RepoType) (latest : Text) (previous : List Text) (earlier : List CostReport) (db : Db)
    (rs : List CostReport)
    → All (IsCompared repo latest previous) earlier
    → All (IsCompared repo latest previous) rs
    → rs ≢ []
    → (es : List Entry) × (frame repo earlier db (first rs) ≡ ok es)
      × All (λ e. IsCompared repo latest previous e.report) es
unfolding frame
frame-All repo latest previous earlier db [] he h n = absurd (n refl)
frame-All repo latest previous earlier db (last ∷ rs) he (h, hs) n = (
  sort (λ x y. entry_before y x) (entries repo (last ∷ earlier) (found_rows earlier last db)),
  refl,
  All-sort (λ e. IsCompared repo latest previous e.report) (λ x y. entry_before y x)
      (entries repo (last ∷ earlier) (found_rows earlier last db))
      (entries-All (IsCompared repo latest previous) repo (last ∷ earlier)
        (found_rows earlier last db) (h, he)),
)

-- If the depth is at least 1 and the repository has a report of the latest tag, the call returns, and
-- every entry is of a report of the repository with the latest tag or one of the previous tags.
pub get_historical_data-IsCompared :
    (depth : ℕ) (repo : RepoType) (latest : Text) (previous : List Text) (db : Db)
    → 1 ≤ depth
    → latest_first (keep (is_tagged repo latest) db.reports) ≢ []
    → (es : List Entry) × (get_historical_data depth repo latest previous db ≡ ok es)
      × All (λ e. IsCompared repo latest previous e.report) es
unfolding get_historical_data
get_historical_data-IsCompared zero repo latest previous db h n = absurd (omega arith)
get_historical_data-IsCompared (suc limit) repo latest previous db h n =
    frame-All repo latest previous (previous_reports repo latest previous limit db) db
      (latest_first (keep (is_tagged repo latest) db.reports))
      (earlier-All repo latest previous limit db) (latest-All repo latest previous db) n
