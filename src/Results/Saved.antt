-- ===== src/Results/Saved.antt =====
-- What stands in the tables after the deletion of reports, and how the rows of a report are found.
use neon_tests.Prelude.{
  or_rest, ℕ, ◌+◌, ◌<◌, ◌≡◌, refl, sym, ◌∙◌, ap, [], ◌∷◌, ◌++◌, List, map, any, ◌==◌, ◌||◌, not,
  if◌then◌else◌, Bool, true, false, All, inl, inr, Bool-cases, arith, ==_iff,
}
use neon_tests.Prelude.Text.{Text}
use neon_tests.Py.{ok}
use neon_tests.Results.Order.{keep, All-keep}
use neon_tests.Results.Tables.{
  RepoType, evm, proxy, tests, repo_eq, CostReport, DappData, Row, Db, is_tagged, is_in,
  get_cost_report_ids, delete_data_by_report_ids, delete_reports, number_rows,
}
use neon_tests.Results.Save.{delete_old}

-- The sequence is ahead of the reports, and every row belongs to a report that is there.
pub record IsWellFormed (db : Db) : Type 0 where
  pub below : All (λ r. r.id < db.next_report) db.reports
  pub owned : All (λ d. is_in (map (λ r. r.id) db.reports) d.cost_report_id ≡ true) db.dapp_data

abbrev pub report_ids : List CostReport → List ℕ
report_ids rs = map (λ r. r.id) rs

-- The rows of a report.
unfoldable pub rows_of : ℕ → Db → List Row
rows_of id db = map (λ d. d.row) (keep (λ d. d.cost_report_id == id) db.dapp_data)

pub keep-true {ℓ} : {A : Type ℓ} (xs : List A) → keep (λ x. true) xs ≡ xs
unfolding keep
keep-true [] = refl
keep-true (x ∷ xs) = ap (λ t. x ∷ t) (keep-true xs)

-- The tables without the reports and their rows.
pub record Deletes (ids : List ℕ) (db db' : Db) : Type 0 where
  pub reports : db'.reports ≡ keep (λ r. not (is_in ids r.id)) db.reports
  pub dapp_data : db'.dapp_data ≡ keep (λ d. not (is_in ids d.cost_report_id)) db.dapp_data
  pub next_report : db'.next_report ≡ db.next_report

none_refer :
    (ids : List ℕ) (ds : List DappData)
    → any (λ d. is_in ids d.cost_report_id) (keep (λ d. not (is_in ids d.cost_report_id)) ds)
      ≡ false
unfolding keep
none_refer ids [] = refl
none_refer ids (d ∷ ds) = elim (Bool-cases (is_in ids d.cost_report_id)) [
  | inl e ↦ rw e (none_refer ids ds)
  | inr e ↦ rw (e, e) (none_refer ids ds)
]

pub if-false {ℓ} : {A : Type ℓ} (b : Bool) (x y : A) → b ≡ false → (if b then x else y) ≡ y
if-false true x y e = cc
if-false false x y e = refl

pub if-true {ℓ} : {A : Type ℓ} (b : Bool) (x y : A) → b ≡ true → (if b then x else y) ≡ x
if-true true x y e = refl
if-true false x y e = cc

pub delete_old-Deletes :
    (ids : List ℕ) (db : Db) → (db' : Db) × (delete_old ids db ≡ ok db') × Deletes ids db db'
unfolding delete_old delete_data_by_report_ids delete_reports
delete_old-Deletes [] db = (
  db,
  refl,
  record {
    reports = sym (keep-true db.reports);
    dapp_data = sym (keep-true db.dapp_data);
    next_report = refl;
  },
)
delete_old-Deletes (i ∷ is) db = (
  record {
    reports = keep (λ r. not (is_in (i ∷ is) r.id)) db.reports;
    dapp_data = keep (λ d. not (is_in (i ∷ is) d.cost_report_id)) db.dapp_data;
    next_report = db.next_report;
    next_data = db.next_data;
  },
  if-false _ _ _ (none_refer (i ∷ is) db.dapp_data),
  record { reports = refl; dapp_data = refl; next_report = refl },
)

-- A report that is kept when others go.
is_in-keep :
    (ids : List ℕ) (n : ℕ) (rs : List CostReport)
    → is_in ids n ≡ false
    → is_in (report_ids rs) n ≡ true
    → is_in (report_ids (keep (λ r. not (is_in ids r.id)) rs)) n ≡ true
unfolding keep
is_in-keep ids n [] out h = h
is_in-keep ids n (r ∷ rs) out h = elim (Bool-cases (r.id == n)) [
  | inl e ↦
      let same : r.id ≡ n = (==_iff r.id n).0 e in
      let stays : is_in ids r.id ≡ false = ap (is_in ids) same ∙ out in rw (stays, e) refl
  | inr e ↦
      let later = is_in-keep ids n rs out (or_rest (r.id == n) _ e h) in
      elim (Bool-cases (is_in ids r.id)) [
        | inl gone ↦ rw gone later
        | inr kept ↦ rw (kept, e) later
      ]
]

owned-keep :
    (ids : List ℕ) (rs : List CostReport) (ds : List DappData)
    → All (λ d. is_in (report_ids rs) d.cost_report_id ≡ true) ds
    → All
        (λ d. is_in (report_ids (keep (λ r. not (is_in ids r.id)) rs)) d.cost_report_id ≡ true)
        (keep (λ d. not (is_in ids d.cost_report_id)) ds)
unfolding keep
owned-keep ids rs [] h = tt
owned-keep ids rs (d ∷ ds) (h, hs) = elim (Bool-cases (is_in ids d.cost_report_id)) [
  | inl e ↦ rw e (owned-keep ids rs ds hs)
  | inr e ↦ rw e (is_in-keep ids d.cost_report_id rs e h, owned-keep ids rs ds hs)
]

below-keep :
    (n : ℕ) (p : CostReport → Bool) (rs : List CostReport)
    → All (λ r. r.id < n) rs
    → All (λ r. r.id < n) (keep p rs)
below-keep n p rs h = All-keep (λ r. r.id < n) p rs h

pub Deletes-IsWellFormed :
    (ids : List ℕ) (db db' : Db) → IsWellFormed db → Deletes ids db db' → IsWellFormed db'
Deletes-IsWellFormed ids db db' w d = record {
  below = rw (d.reports, d.next_report) (below-keep db.next_report _ db.reports w.below);
  owned = rw (d.reports, d.dapp_data) (owned-keep ids db.reports db.dapp_data w.owned);
}

eq_refl : (n : ℕ) → (n == n) ≡ true
eq_refl n = (==_iff n n).1 refl

or-right : (a b : Bool) → b ≡ true → (a || b) ≡ true
or-right true b e = refl
or-right false b e = e

or-left : (a b : Bool) → a ≡ true → (a || b) ≡ true
or-left true b e = refl
or-left false b e = cc

-- The reports with a tag go when those go that the query finds.
gone :
    (p : CostReport → Bool) (ids : List ℕ) (rs : List CostReport)
    → ((n : ℕ) → is_in (report_ids (keep p rs)) n ≡ true → is_in ids n ≡ true)
    → keep p (keep (λ r. not (is_in ids r.id)) rs) ≡ []
unfolding keep
gone p ids [] h = refl
gone p ids (r ∷ rs) h = elim (Bool-cases (p r)) [
  | inl e ↦
      let listed =
        ap (λ t. is_in (report_ids t) r.id) (if-true (p r) (r ∷ keep p rs) (keep p rs) e)
        ∙ or-left (r.id == r.id) _ (eq_refl r.id) in
      rw (h r.id listed) (
        gone p ids rs λ n m. h n (
          ap (λ t. is_in (report_ids t) n) (if-true (p r) (r ∷ keep p rs) (keep p rs) e)
          ∙ or-right (r.id == n) _ m))
  | inr e ↦
      let rest = gone p ids rs λ n m.
        h n (ap (λ t. is_in (report_ids t) n) (if-false (p r) (r ∷ keep p rs) (keep p rs) e) ∙ m) in
      elim (Bool-cases (is_in ids r.id)) [ inl out ↦ rw out rest | inr kept ↦ rw (kept, e) rest ]
]

-- The query after the deletion.
pub ids-after :
    (repo : RepoType) (tag : Text) (db db' : Db)
    → Deletes (get_cost_report_ids repo tag db) db db'
    → get_cost_report_ids repo tag db' ≡ []
unfolding get_cost_report_ids
ids-after repo tag db db' d =
    ap (λ rs. report_ids (keep (is_tagged repo tag) rs)) d.reports
    ∙ ap report_ids (
        gone (is_tagged repo tag) (report_ids (keep (is_tagged repo tag) db.reports)) db.reports
          λ n m. m)

pub repo_eq_refl : (r : RepoType) → repo_eq r r ≡ true
repo_eq_refl proxy = refl
repo_eq_refl evm = refl
repo_eq_refl tests = refl

pub is_in-append : (xs : List ℕ) (n : ℕ) → is_in (xs ++ n ∷ []) n ≡ true
is_in-append [] n = or-left (n == n) _ (eq_refl n)
is_in-append (x ∷ xs) n = or-right (x == n) _ (is_in-append xs n)

pub report_ids-append :
    (rs : List CostReport) (r : CostReport) → report_ids (rs ++ r ∷ []) ≡ report_ids rs ++ r.id ∷ []
report_ids-append [] r = refl
report_ids-append (x ∷ rs) r = ap (λ t. x.id ∷ t) (report_ids-append rs r)

pub is_in-left : (xs ys : List ℕ) (n : ℕ) → is_in xs n ≡ true → is_in (xs ++ ys) n ≡ true
is_in-left [] ys n h = cc
is_in-left (x ∷ xs) ys n h = elim (Bool-cases (x == n)) [
  | inl e ↦ or-left (x == n) _ e
  | inr e ↦ or-right (x == n) _ (is_in-left xs ys n (or_rest (x == n) _ e h))
]

-- Rows of reports below the sequence do not belong to the next report.
not_yet :
    (n : ℕ) (rs : List CostReport) (k : ℕ)
    → All (λ r. r.id < n) rs
    → is_in (report_ids rs) k ≡ true
    → (k == n) ≡ false
not_yet n [] k h m = cc
not_yet n (r ∷ rs) k (h, hs) m = elim (Bool-cases (r.id == k)) [
  | inl e ↦ ground (arith, (==_iff r.id k).0 e, h)
  | inr e ↦ not_yet n rs k hs (or_rest (r.id == k) _ e m)
]

pub rows-old :
    (n : ℕ) (rs : List CostReport) (ds : List DappData)
    → All (λ r. r.id < n) rs
    → All (λ d. is_in (report_ids rs) d.cost_report_id ≡ true) ds
    → keep (λ d. d.cost_report_id == n) ds ≡ []
unfolding keep
rows-old n rs [] b h = refl
rows-old n rs (d ∷ ds) b (h, hs) = rw (not_yet n rs d.cost_report_id b h) (rows-old n rs ds b hs)

pub rows-new :
    (n k : ℕ) (rows : List Row)
    → map (λ d. d.row) (keep (λ d. d.cost_report_id == n) (number_rows n k rows)) ≡ rows
unfolding keep
rows-new n k [] = refl
rows-new n k (r ∷ rs) = rw (eq_refl n) (ap (λ t. r ∷ t) (rows-new n (k + 1) rs))
