-- ===== src/Results/Save.antt =====
-- `save_dapps_cost_report_to_db` of clickfile.py.
use neon_tests.Prelude.{ℕ, [], ◌∷◌, List, ◌&&◌, if◌then◌else◌, Bool, true, false}
use neon_tests.Prelude.Text.{Text, text_eq, codes}
use neon_tests.Py.{Result, ok, ◌>>=◌}
use neon_tests.Results.Version.{is_version_branch}
use neon_tests.Results.Tables.{
  RepoType, evm, proxy, tests, Db, Row, get_cost_report_ids, delete_data_by_report_ids,
  delete_reports, save_cost_report, save_cost_report_data,
}

-- `evm_tag if repo == "evm" else proxy_tag`
abbrev pub tag_for : RepoType → Text → Text → Text
tag_for evm evm_tag proxy_tag = evm_tag
tag_for proxy evm_tag proxy_tag = proxy_tag
tag_for tests evm_tag proxy_tag = proxy_tag

-- Reports for a merge to develop or to a version branch are kept beside the earlier ones.
pub do_delete : Text → Text → Bool
unfolding is_version_branch
do_delete evm_tag proxy_tag =
    if text_eq evm_tag proxy_tag && text_eq proxy_tag (codes "latest")
    then false
    else if is_version_branch evm_tag && (is_version_branch proxy_tag && text_eq evm_tag proxy_tag)
    then false
    else true

-- `if report_ids_old: …`
unfoldable pub delete_old : List ℕ → Db → Result Db
unfolding delete_data_by_report_ids delete_reports
delete_old [] db = ok db
delete_old (i ∷ is) db = delete_reports (i ∷ is) (delete_data_by_report_ids (i ∷ is) db)

unfoldable pub save_new : ℕ → RepoType → Text → Text → Text → Text → List Row → Db → Result Db
unfolding save_cost_report save_cost_report_data
save_new now repo evm_tag proxy_tag evm_sha proxy_sha rows db =
    let (id, db') = save_cost_report now repo evm_tag proxy_tag evm_sha proxy_sha db in
    save_cost_report_data rows id db'

unfoldable pub save_dapps_cost_report_to_db :
    ℕ → RepoType → Text → Text → Text → Text → List Row → Db → Result Db
unfolding do_delete delete_old save_new get_cost_report_ids
save_dapps_cost_report_to_db now repo evm_tag proxy_tag evm_sha proxy_sha rows db =
    let old = get_cost_report_ids repo (tag_for repo evm_tag proxy_tag) db in
    do
      db' ← if do_delete evm_tag proxy_tag then delete_old old db else ok db
      save_new now repo evm_tag proxy_tag evm_sha proxy_sha rows db'
