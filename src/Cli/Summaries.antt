-- ===== src/Cli/Summaries.antt =====
-- What clickfile.py makes of results: the printed summary and the notification, with the block of
-- utils/slack_notification.py, and the texts of `compare_dapp_results`.
use neon_tests.Prelude.{
  ℕ, ◌+◌, [], ◌∷◌, ◌++◌, List, Option, none, some, ltb, ◌==◌, if◌then◌else◌, length, Bool, true,
  false,
}
use neon_tests.Prelude.Text.{Text, codes, last_piece}
use neon_tests.Py.{Result, ok, err, ◌>>=◌, value_error, runtime_error}
use neon_tests.Reports.{decimal}

-- The fields of a block, and the URL of its button.
pub record Block : Type 0 where
  pub fields : List Text
  pub accessory : Option Text

abbrev pub is_blank : Text → Bool
is_blank [] = true
is_blank (c ∷ cs) = false

-- `f" {index + 1}" if len(comments) > 1 else ""`
abbrev pub comment_number : (several : Bool) → ℕ → Text
comment_number true index = 32 ∷ decimal (index + 1)
comment_number false index = []

-- The fields of the comments from an index on; an empty comment keeps its number.
unfoldable pub comment_fields : (several : Bool) → ℕ → List Text → List Text
comment_fields several index [] = []
comment_fields several index (c ∷ cs) =
    let rest = comment_fields several (index + 1) cs in
    if is_blank c
    then rest
    else (codes "*Comment" ++ comment_number several index ++ codes "*") ∷ c ∷ rest

abbrev pub url_or_none : Text → Option Text
url_or_none [] = none
url_or_none (c ∷ cs) = some (c ∷ cs)

abbrev pub failed_fields : Text → List Text
failed_fields [] = []
failed_fields (c ∷ cs) = codes "*Failed Tests*" ∷ (c ∷ cs) ∷ []

-- `add_combined_block`
unfoldable pub combined_block : Text → Text → Text → Text → Text → List Text → Block
unfolding comment_fields
combined_block build_id build_url network failed_tests report_url comments = record {
  fields =
      codes "*Failed build*"
        ∷ (codes "<" ++ build_url ++ codes "|`" ++ build_id ++ codes "`>")
        ∷ codes "*Network*"
        ∷ network
        ∷ failed_fields failed_tests
      ++ comment_fields (ltb 1 (length comments)) 0 comments;
  accessory = url_or_none report_url;
}

-- The text of the failed tests: the counts of the groups if there are any.
abbrev pub count_lines : List (Text × ℕ) → Text
count_lines [] = []
count_lines ((g, n) ∷ []) = g ++ codes ": " ++ decimal n
count_lines ((g, n) ∷ d ∷ ds) = g ++ codes ": " ++ decimal n ++ 10 ∷ count_lines (d ∷ ds)

abbrev pub failed_tests_of : List (Text × ℕ) → Text → Text
failed_tests_of [] test_group = test_group
failed_tests_of (d ∷ ds) test_group = count_lines (d ∷ ds)

-- What is sent, and the result by the status of the response. `report_url` is the content of the
-- file of the report's URL, if there is one.
pub send_notification :
    (build_url_path build_url network test_group : Text)
    → (failed_count_by_group : List (Text × ℕ)) → (report_url : Option Text)
    → (comments : List Text) → (status : ℕ) → Block × Result (Unit {0})
unfolding combined_block
send_notification path build_url network test_group counts report_url comments status = (
  combined_block (last_piece [] path) build_url network (failed_tests_of counts test_group)
      (or_blank report_url) comments,
  if status == 200 then ok tt else err runtime_error,
)
  where
    or_blank : Option Text → Text
    or_blank none = []
    or_blank (some t) = t

-- `print_test_suite_results`, without the files: the lines, with `capitalize` given.
abbrev pub total : List (Text × ℕ) → ℕ
total [] = 0
total ((state, n) ∷ ds) = n + total ds

abbrev pub state_lines : (Text → Text) → List (Text × ℕ) → List Text
state_lines capitalize [] = []
state_lines capitalize ((state, n) ∷ ds) =
    (codes "    " ++ capitalize state ++ codes " - " ++ decimal n) ∷ state_lines capitalize ds

pub data Service : Type 0 where
  evm proxy tests : Service

-- The two tags of a comparison: that of the repository, and that of the other service. The tests'
-- repository has the tag of the proxy in both.
abbrev pub compared_service_tag : Service → Text → Text → Text
compared_service_tag evm evm_tag proxy_tag = evm_tag
compared_service_tag _ evm_tag proxy_tag = proxy_tag

abbrev pub other_service_tag : Service → Text → Text → Text
other_service_tag proxy evm_tag proxy_tag = evm_tag
other_service_tag _ evm_tag proxy_tag = proxy_tag

abbrev pub service_name : Service → Text
service_name evm = codes "evm"
service_name proxy = codes "proxy"
service_name tests = codes "tests"

abbrev pub other_service_name : Service → Text
other_service_name proxy = codes "neon_evm"
other_service_name _ = codes "proxy"

-- The commits of the repository and of the other service.
abbrev pub commits_of : Service → Text → Text → Result (Text × Text)
commits_of evm evm_sha proxy_sha = ok (evm_sha, proxy_sha)
commits_of proxy evm_sha proxy_sha = ok (proxy_sha, evm_sha)
commits_of tests evm_sha proxy_sha = err value_error

abbrev pub sha_string : Text → Text
sha_string [] = []
sha_string (c ∷ cs) = codes ", commit sha " ++ c ∷ cs

pub title_end : Service → Text → Text → Text → Text → Result Text
title_end repo evm_tag proxy_tag evm_sha proxy_sha = do
  (compared, other) ← commits_of repo evm_sha proxy_sha
  ok (
      codes "on "
      ++ service_name repo
      ++ codes ":"
      ++ compared_service_tag repo evm_tag proxy_tag
      ++ sha_string compared
      ++ codes "\nwith "
      ++ other_service_name repo
      ++ codes ":"
      ++ other_service_tag repo evm_tag proxy_tag
      ++ sha_string other)
