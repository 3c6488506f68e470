-- ===== src/Cli/Deploy.antt =====
-- The command `deploy`, `get_evm_pinned_version` and `download_evm_contracts` of clickfile.py. What
-- the repositories answer is given.
use neon_tests.Prelude.{
  [], ◌∷◌, ◌++◌, List, Option, none, some, ◌==◌, ◌&&◌, not, if◌then◌else◌, Bool, true, false,
}
use neon_tests.Prelude.Text.{is_digit, Text, codes, text_eq, contains}
use neon_tests.Py.{Result, ok, err, click_exception}
use neon_tests.Py.Bytes.{Bytes}
use neon_tests.Results.Version.{match_version_branch, is_version_tag_start}

-- The repositories whose images are deployed.
pub data Repository : Type 0 where
  proxy_repo evm_repo faucet_repo : Repository

abbrev pub is_empty : Text → Bool
is_empty [] = true
is_empty (c ∷ cs) = false

abbrev pub latest : Text
latest = codes "latest"

pub record Deployment : Type 0 where
  pub evm_tag : Text
  pub proxy_tag : Text
  pub faucet_tag : Text
  pub evm_branch : Text
  pub proxy_branch : Text
  pub use_real_price : Bool

-- `exists` tells whether the request for a branch is answered with 200.
module _ (exists : Repository → Text → Bool) where
  unfoldable pub is_branch_exist : Repository → Text → Bool
  is_branch_exist repo branch = if is_empty branch then false else exists repo branch

  -- `branch if is_branch_exist(…) else ""`
  unfoldable pub tag_if_exists : Text → Repository → Text
  unfolding is_branch_exist
  tag_if_exists branch repo = if is_branch_exist repo branch then branch else []

  -- The branch of this repository, unless it is develop or the merge of a pull request; then the
  -- branch of the feature, if one is given.
  unfoldable pub first_choice : Text → Text → Repository → Text
  unfolding tag_if_exists contains
  first_choice current head repo =
      if not (contains (codes "/merge") current) && not (text_eq current (codes "develop"))
      then tag_if_exists current repo
      else if is_empty head
      then []
      else tag_if_exists head repo

  pub version_branch : Text → Text → Option Text
  unfolding match_version_branch
  version_branch current base = elim (match_version_branch base) [
    | some v ↦ some v
    | none ↦ match_version_branch current
  ]

  abbrev pub or_version : Option Text → Repository → Text → Text
  or_version none repo tag = tag
  or_version (some v) repo tag = if is_branch_exist repo v && is_empty tag then v else tag

  abbrev pub or_latest : Text → Text
  or_latest tag = if is_empty tag then latest else tag

  unfoldable pub image_tag : Text → Text → Text → Repository → Text
  unfolding is_branch_exist first_choice version_branch
  image_tag current head base repo =
      or_latest (or_version (version_branch current base) repo (first_choice current head repo))

  -- `tag if tag != "latest" else "develop"`
  abbrev pub branch_of : Text → Text
  branch_of tag = if text_eq tag latest then codes "develop" else tag

  unfoldable pub deploy : Text → Text → Text → Text → Deployment
  unfolding image_tag
  deploy current head base price = record {
    evm_tag = image_tag current head base evm_repo;
    proxy_tag = image_tag current head base proxy_repo;
    faucet_tag = image_tag current head base faucet_repo;
    evm_branch = branch_of (image_tag current head base evm_repo);
    proxy_branch = branch_of (image_tag current head base proxy_repo);
    use_real_price = text_eq price (codes "1");
  }

-- `re.sub(r"\.\d+$", ".x", tag)`: from a point on, digits to the end of the last line.
abbrev pub digits_end : Text → Option Text
digits_end [] = some []
digits_end (c ∷ cs) =
    let rest = digits_end cs in
    if is_digit c then rest else if c == 10 && is_empty cs then some (c ∷ cs) else none

abbrev pub patch_end : Text → Option Text
patch_end [] = none
patch_end (c ∷ cs) = if is_digit c then digits_end cs else none

pub replace_patch : Text → Text
replace_patch [] = []
replace_patch (c ∷ cs) =
    let rest = c ∷ replace_patch cs in
    if c == 46 then elim (patch_end cs) [ none ↦ rest | some end ↦ codes ".x" ++ end ] else rest

-- The tag that the pipeline of a branch of the proxy names, if the file can be read.
module _ (pipeline_tag : Text → Option Text) where
  pub get_evm_pinned_version : Text → Result Text
  unfolding replace_patch is_version_tag_start
  get_evm_pinned_version branch = elim (pipeline_tag branch) [
    | none ↦ err click_exception
    | some tag ↦ ok (
        if text_eq tag latest
        then codes "develop"
        else if is_version_tag_start tag
        then replace_patch tag
        else tag)
  ]

-- An entry of the listing: its name, and the content if the download succeeds.
abbrev pub Item : Type 0
Item = Text × Option Bytes

unfoldable pub download_items : List Item → List (Text × Bytes) × Result (Unit {0})
download_items [] = ([], ok tt)
download_items ((name, none) ∷ items) = ([], err click_exception)
download_items ((name, some content) ∷ items) =
    let (files, r) = download_items items in ((name, content) ∷ files, r)

-- The listings of the two directories on a branch, if they are there: `solidity`, and the older
-- `evm_loader/solidity`.
module _ (exists : Repository → Text → Bool) (pipeline_tag : Text → Option Text)
    (listing old_listing : Text → Option (List Item)) where
  pub contracts_branch : Text → Result Text
  unfolding is_branch_exist get_evm_pinned_version
  contracts_branch branch =
      if is_branch_exist exists evm_repo branch && not (text_eq branch (codes "develop"))
      then ok branch
      else get_evm_pinned_version pipeline_tag (codes "develop")

  abbrev pub either : Option (List Item) → Option (List Item) → Option (List Item)
  either none o = o
  either (some is) o = some is

  abbrev pub download_found : Option (List Item) → List (Text × Bytes) × Result (Unit {0})
  download_found none = ([], err click_exception)
  download_found (some items) = download_items items

  abbrev pub download_from : Result Text → List (Text × Bytes) × Result (Unit {0})
  download_from (err e) = ([], err e)
  download_from (ok branch) = download_found (either (listing branch) (old_listing branch))

  -- The files that are written, and how the command ends.
  unfoldable pub download_evm_contracts : Text → List (Text × Bytes) × Result (Unit {0})
  unfolding contracts_branch download_items
  download_evm_contracts branch = download_from (contracts_branch branch)
