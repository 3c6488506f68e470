-- ===== src/Results/Replaces.antt =====
-- What stands in the tables after `save_dapps_cost_report_to_db`.
use neon_tests.Prelude.{
  All-append, All-map, ℕ, ◌+◌, ◌<◌, ◌≡◌, refl, sym, ◌∙◌, ap, subst, [], ◌∷◌, ◌++◌, List, map,
  if◌then◌else◌, Bool, true, All, inl, inr, Bool-cases, arith, append-nil, ◌==◌,
}
use neon_tests.Prelude.Text.{Text, text_eq_iff}
use neon_tests.Py.{ok}
use neon_tests.Results.Order.{keep, sort, keep-append}
use neon_tests.Results.Tables.{
  RepoType, evm, proxy, tests, CostReport, DappData, Row, Db, is_tagged, is_in, or_none,
  get_cost_report_ids, save_cost_report, save_cost_report_data, number_rows, count_rows, grouped,
}
use neon_tests.Results.Save.{tag_for, do_delete, save_new, save_dapps_cost_report_to_db}
use neon_tests.Results.Saved.{
  IsWellFormed, report_ids, rows_of, delete_old-Deletes, Deletes-IsWellFormed, ids-after, if-true,
  is_in-append, report_ids-append, is_in-left, rows-old, rows-new,
}

numbered-All :
    (P : ℕ → Type 0) (n k : ℕ) (rows : List Row)
    → P n
    → All (λ d. P d.cost_report_id) (number_rows n k rows)
numbered-All P n k [] h = tt
numbered-All P n k (r ∷ rs) h = (h, numbered-All P n (k + 1) rs h)

map-append_rows :
    (xs ys : List DappData)
    → map (λ d. d.row) (xs ++ ys) ≡ map (λ d. d.row) xs ++ map (λ d. d.row) ys
map-append_rows [] ys = refl
map-append_rows (x ∷ xs) ys = ap (λ t. x.row ∷ t) (map-append_rows xs ys)

tagged-new :
    (repo : RepoType) (r : CostReport) (evm_tag proxy_tag : Text)
    → r.repo ≡ repo
    → r.neon_evm_tag ≡ evm_tag
    → r.proxy_tag ≡ proxy_tag
    → is_tagged repo (tag_for repo evm_tag proxy_tag) r ≡ true
tagged-new proxy r e p h he hp = rw (h, hp) ((text_eq_iff p p).1 refl)
tagged-new evm r e p h he hp = rw (h, he) ((text_eq_iff e e).1 refl)
tagged-new tests r e p h he hp = rw (h, hp) ((text_eq_iff p p).1 refl)

-- A report that is added to well-formed tables, with its rows.
record Adds (repo : RepoType) (tag : Text) (rows : List Row) (db db' : Db) : Type 0 where
  formed : IsWellFormed db'
  listed : get_cost_report_ids repo tag db' ≡ get_cost_report_ids repo tag db ++ db.next_report ∷ []
  stored : rows_of db.next_report db' ≡ grouped rows

module _ (now : ℕ) (repo : RepoType) (evm_tag proxy_tag evm_sha proxy_sha : Text) where
  abbrev new_report : ℕ → CostReport
  new_report n = record {
    id = n;
    timestamp = now;
    repo = repo;
    neon_evm_tag = evm_tag;
    proxy_tag = proxy_tag;
    evm_commit_sha = or_none evm_sha;
    proxy_commit_sha = proxy_sha;
  }

  listed-new :
      (rs : List CostReport) (n : ℕ)
      → report_ids
          (keep (is_tagged repo (tag_for repo evm_tag proxy_tag)) (rs ++ new_report n ∷ []))
        ≡ report_ids (keep (is_tagged repo (tag_for repo evm_tag proxy_tag)) rs) ++ n ∷ []
  unfolding keep
  listed-new rs n =
      let p = is_tagged repo (tag_for repo evm_tag proxy_tag) in
      ap report_ids (keep-append p rs (new_report n ∷ []))
      ∙ ap (λ t. report_ids (keep p rs ++ t))
          (if-true (p (new_report n)) _ _
            (tagged-new repo (new_report n) evm_tag proxy_tag refl refl refl))
      ∙ report_ids-append (keep p rs) (new_report n)

  below-new :
      (db : Db)
      → IsWellFormed db
      → All (λ r. r.id < db.next_report + 1) (db.reports ++ new_report db.next_report ∷ [])
  below-new db w =
      All-append _ db.reports (new_report db.next_report ∷ [])
        (All-map (λ r. r.id < db.next_report) (λ r. r.id < db.next_report + 1) (λ r h. omega arith)
          db.reports w.below)
        (omega arith, tt)

  owned-new :
      (db : Db) (ds : List DappData)
      → IsWellFormed db
      → All
          (λ d.
            is_in (report_ids (db.reports ++ new_report db.next_report ∷ [])) d.cost_report_id
            ≡ true)
          ds
      → All
          (λ d.
            is_in (report_ids (db.reports ++ new_report db.next_report ∷ [])) d.cost_report_id
            ≡ true)
          (db.dapp_data ++ ds)
  owned-new db ds w h =
      All-append _ db.dapp_data ds
        (All-map (λ d. is_in (report_ids db.reports) d.cost_report_id ≡ true) _
          (λ d k.
            ap (λ t. is_in t d.cost_report_id)
              (report_ids-append db.reports (new_report db.next_report))
            ∙ is_in-left (report_ids db.reports) (db.next_report ∷ []) d.cost_report_id k)
          db.dapp_data w.owned)
        h

  there :
      (db : Db)
      → is_in (report_ids (db.reports ++ new_report db.next_report ∷ [])) db.next_report ≡ true
  there db =
      ap (λ t. is_in t db.next_report) (report_ids-append db.reports (new_report db.next_report))
      ∙ is_in-append (report_ids db.reports) db.next_report

  rows-stored :
      (db : Db) (rows : List Row)
      → IsWellFormed db
      → map
          (λ d. d.row)
          (keep
            (λ d. d.cost_report_id == db.next_report)
            (db.dapp_data ++ number_rows db.next_report db.next_data rows))
        ≡ rows
  rows-stored db rows w =
      let p : DappData → Bool = λ d. d.cost_report_id == db.next_report in
      ap (map (λ d. d.row))
        (keep-append p db.dapp_data (number_rows db.next_report db.next_data rows))
      ∙ ap (λ t. map (λ d. d.row) (t ++ keep p (number_rows db.next_report db.next_data rows)))
          (rows-old db.next_report db.reports db.dapp_data w.below w.owned)
      ∙ rows-new db.next_report db.next_data rows

  save_new-Adds :
      (rows : List Row) (db : Db)
      → IsWellFormed db
      → (db' : Db) × (save_new now repo evm_tag proxy_tag evm_sha proxy_sha rows db ≡ ok db')
        × Adds repo (tag_for repo evm_tag proxy_tag) rows db db'
  unfolding save_new save_cost_report save_cost_report_data get_cost_report_ids rows_of grouped sort
  save_new-Adds [] db w = (
    (save_cost_report now repo evm_tag proxy_tag evm_sha proxy_sha db).1,
    refl,
    record {
      formed = record {
        below = below-new db w;
        owned = subst (All _) (append-nil db.dapp_data) (owned-new db [] w tt);
      };
      listed = listed-new db.reports db.next_report;
      stored =
          sym (
            ap (λ t. map (λ d. d.row) (keep (λ d. d.cost_report_id == db.next_report) t))
              (append-nil db.dapp_data))
          ∙ rows-stored db [] w;
    },
  )
  save_new-Adds (r ∷ rs) db w = (
    record {
      reports = db.reports ++ new_report db.next_report ∷ [];
      dapp_data = db.dapp_data ++ number_rows db.next_report db.next_data (grouped (r ∷ rs));
      next_report = db.next_report + 1;
      next_data = db.next_data + count_rows (r ∷ rs);
    },
    if-true _ _ _ (there db),
    record {
      formed = record {
        below = below-new db w;
        owned =
            owned-new db (number_rows db.next_report db.next_data (grouped (r ∷ rs))) w
              (numbered-All _ db.next_report db.next_data (grouped (r ∷ rs)) (there db));
      };
      listed = listed-new db.reports db.next_report;
      stored = rows-stored db (grouped (r ∷ rs)) w;
    },
  )

  -- On well-formed tables the command returns, and leaves well-formed tables. The reports of the
  -- tag are the new one behind the earlier ones for a merge to develop or to a version branch, and
  -- the new one alone otherwise; and the new one has the rows that were given, grouped by
  -- application.
  pub save_dapps-replaces :
      (rows : List Row) (db : Db)
      → IsWellFormed db
      → (db' : Db) × (save_dapps_cost_report_to_db now repo evm_tag proxy_tag evm_sha proxy_sha rows
            db
          ≡ ok db')
        × IsWellFormed db'
        × (get_cost_report_ids repo (tag_for repo evm_tag proxy_tag) db'
            ≡ (if do_delete evm_tag proxy_tag
                then []
                else get_cost_report_ids repo (tag_for repo evm_tag proxy_tag) db)
              ++ db.next_report ∷ [])
        × (rows_of db.next_report db' ≡ grouped rows)
  unfolding save_dapps_cost_report_to_db
  save_dapps-replaces rows db w =
      let tag = tag_for repo evm_tag proxy_tag in
      elim (Bool-cases (do_delete evm_tag proxy_tag)) [
        | inl e ↦
            let (mid, gone, d) = delete_old-Deletes (get_cost_report_ids repo tag db) db in
            let (db', saved, a) = save_new-Adds rows mid (Deletes-IsWellFormed _ db mid w d) in
            (
              db',
              rw (e, gone) saved,
              a.formed,
              rw e (
                  a.listed
                  ∙ ap (λ t. t ++ mid.next_report ∷ []) (ids-after repo tag db mid d)
                  ∙ ap (λ n. n ∷ []) d.next_report),
              subst (λ n. rows_of n db' ≡ grouped rows) d.next_report a.stored,
            )
        | inr e ↦
            let (db', saved, a) = save_new-Adds rows db w in
            (db', rw e saved, a.formed, rw e a.listed, a.stored)
      ]
