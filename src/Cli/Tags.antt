-- ===== src/Cli/Tags.antt =====
-- Which images `deploy` takes, and which files `download_evm_contracts` writes.
use neon_tests.Prelude.{
  ◌≡◌, refl, ap, ◌⊎◌, inl, inr, [], ◌∷◌, ◌++◌, List, Option, none, some, map, ◌&&◌, not,
  if◌then◌else◌, Bool, true, false, Bool-cases,
}
use neon_tests.Prelude.Text.{Text, codes, text_eq, contains}
use neon_tests.Py.{ok, err, click_exception}
use neon_tests.Py.Bytes.{Bytes}
use neon_tests.Cli.Deploy.{
  Repository, proxy_repo, evm_repo, faucet_repo, is_empty, latest, is_branch_exist, tag_if_exists,
  first_choice, version_branch, or_version, or_latest, image_tag, deploy, Item, download_items,
}

module _ (exists : Repository → Text → Bool) where
  -- The tag of an image: the latest, or a branch that the repository has.
  abbrev pub IsImage : Repository → Text → Type 0
  IsImage repo tag = (tag ≡ latest) ⊎ (exists repo tag ≡ true)

  -- No tag yet, or a branch that the repository has.
  abbrev IsChoice : Repository → Text → Type 0
  IsChoice repo tag = (tag ≡ []) ⊎ (exists repo tag ≡ true)

  branch_exists :
      (repo : Repository) (b : Text) → is_branch_exist exists repo b ≡ true → exists repo b ≡ true
  unfolding is_branch_exist
  branch_exists repo [] e = cc
  branch_exists repo (c ∷ cs) e = e

  IsChoice-if :
      (repo : Repository) (b : Bool) (s t : Text)
      → IsChoice repo s
      → IsChoice repo t
      → IsChoice repo (if b then s else t)
  IsChoice-if repo true s t h k = h
  IsChoice-if repo false s t h k = k

  tag_if_exists-IsChoice :
      (b : Text) (repo : Repository) → IsChoice repo (tag_if_exists exists b repo)
  unfolding tag_if_exists
  tag_if_exists-IsChoice b repo = elim (Bool-cases (is_branch_exist exists repo b)) [
    | inl e ↦ rw e (inr (branch_exists repo b e))
    | inr e ↦ rw e (inl refl)
  ]

  first_choice-IsChoice :
      (current head : Text) (repo : Repository)
      → IsChoice repo (first_choice exists current head repo)
  unfolding first_choice
  first_choice-IsChoice current head repo =
      IsChoice-if repo
        (not (contains (codes "/merge") current) && not (text_eq current (codes "develop"))) _ _
        (tag_if_exists-IsChoice current repo)
        (IsChoice-if repo (is_empty head) _ _ (inl refl) (tag_if_exists-IsChoice head repo))

  or_version-IsChoice :
      (v : Option Text) (repo : Repository) (tag : Text)
      → IsChoice repo tag
      → IsChoice repo (or_version exists v repo tag)
  or_version-IsChoice none repo tag h = h
  or_version-IsChoice (some v) repo tag h = elim (Bool-cases (is_branch_exist exists repo v)) [
    | inl e ↦ rw e (IsChoice-if repo (is_empty tag) v tag (inr (branch_exists repo v e)) h)
    | inr e ↦ rw e h
  ]

  or_latest-IsImage :
      (repo : Repository) (tag : Text) → IsChoice repo tag → IsImage repo (or_latest exists tag)
  or_latest-IsImage repo [] h = inl refl
  or_latest-IsImage repo (c ∷ cs) (inl e) = cc
  or_latest-IsImage repo (c ∷ cs) (inr e) = inr e

  image_tag-IsImage :
      (current head base : Text) (repo : Repository)
      → IsImage repo (image_tag exists current head base repo)
  unfolding image_tag
  image_tag-IsImage current head base repo = or_latest-IsImage repo _ (
      or_version-IsChoice (version_branch exists current base) repo _
        (first_choice-IsChoice current head repo))

  -- Whatever the branches are called, each of the three images is the latest or one of a branch that
  -- its own repository has.
  pub deploy-IsImage :
      (current head base price : Text)
      → IsImage evm_repo (deploy exists current head base price).evm_tag
        × IsImage proxy_repo (deploy exists current head base price).proxy_tag
        × IsImage faucet_repo (deploy exists current head base price).faucet_tag
  unfolding deploy
  deploy-IsImage current head base price = (
    image_tag-IsImage current head base evm_repo,
    image_tag-IsImage current head base proxy_repo,
    image_tag-IsImage current head base faucet_repo,
  )

-- A file that was written, as the listing has it.
abbrev pub listed : Text × Bytes → Item
listed (name, content) = (name, some content)

-- The files that are written are the entries of the listing from its start: all of them, if the
-- command ends well, and otherwise those before the first that cannot be downloaded.
pub download_items-listed :
    (items : List Item)
    → (rest : List Item) × (items ≡ map listed (download_items items).0 ++ rest)
      × ((((download_items items).1 ≡ ok tt) × (rest ≡ []))
          ⊎ (((download_items items).1 ≡ err click_exception)
              × ((name : Text) × (more : List Item) × (rest ≡ (name, none) ∷ more))))
unfolding download_items
download_items-listed [] = ([], refl, inl (refl, refl))
download_items-listed ((name, none) ∷ items) =
    ((name, none) ∷ items, refl, inr (refl, (name, items, refl)))
download_items-listed ((name, some content) ∷ items) =
    let (rest, e, h) = download_items-listed items in
    (rest, ap (λ t. (name, some content) ∷ t) e, h)
