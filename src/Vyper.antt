-- ===== src/Vyper.antt =====
-- utils/vyperx.py: which versions of the Vyper compiler the tests use. What the package index answers
-- is given, and so is the order of versions of the packaging library.
pub mod Highest
mod Tests
use neon_tests.Prelude.{
  ℕ, zero, suc, ◌+◌, [], ◌∷◌, ◌++◌, List, Option, none, some, ◌==◌, ◌&&◌, if◌then◌else◌, not, take,
  Bool, true, false,
}
use neon_tests.Prelude.Int.{ℤ, pos, negsuc, ltb_ℤ}
use neon_tests.Prelude.Text.{Text, codes, text_eq, starts_with, contains}
use neon_tests.Py.{
  Result, ok, err, ◌>>=◌, map_result, or_raise, index_error, value_error, runtime_error,
}
use neon_tests.Py.Number.{int}
use neon_tests.Results.Order.{keep, sort, text_before}
use neon_tests.Results.PreviousTags.{distinct}

-- The answer `k` of the index: the names of the releases, if its status is 200. So many tries are left.
unfoldable pub releases_from :
    (replies : ℕ → Option (List Text)) → (left : ℕ) → ℕ → Result (List Text)
releases_from replies zero k = err runtime_error
releases_from replies (suc left) k = listed (replies k) (releases_from replies left (suc k))
  where
    listed : Option (List Text) → Result (List Text) → Result (List Text)
    listed none again = again
    listed (some names) again = ok names

-- `text.split(".")`
abbrev pub split_dots : Text → Text → List Text
split_dots piece [] = piece ∷ []
split_dots piece (c ∷ cs) =
    let next = split_dots [] cs in
    let longer = split_dots (piece ++ c ∷ []) cs in if c == 46 then piece ∷ next else longer

abbrev pub second : List Text → Option Text
second [] = none
second (x ∷ []) = none
second (x ∷ y ∷ ys) = some y

unfoldable pub major_of : Text → Result Text
major_of version = or_raise (second (split_dots [] version)) index_error

-- `part.replace("b", "")` and `part.replace("rc", "")`
abbrev pub without_b : Text → Text
without_b [] = []
without_b (c ∷ cs) = if c == 98 then without_b cs else c ∷ without_b cs

abbrev pub without_rc : Text → Text
without_rc [] = []
without_rc (c ∷ []) = c ∷ []
without_rc (c ∷ d ∷ cs) =
    let after = without_rc cs in
    let behind = without_rc (d ∷ cs) in if c == 114 && d == 99 then after else c ∷ behind

-- The key by which two releases are compared: their numbers.
unfoldable pub numbers : Text → Result (List ℤ)
unfolding int
numbers version = map_result (λ p. int 10 (without_rc (without_b p))) (split_dots [] version)

-- `<` on lists
unfoldable pub less : List ℤ → List ℤ → Bool
less [] [] = false
less [] (y ∷ ys) = true
less (x ∷ xs) [] = false
less (x ∷ xs) (y ∷ ys) =
    let rest = less xs ys in if ltb_ℤ x y then true else if ltb_ℤ y x then false else rest

-- The best of a release and those behind it: the first of the largest.
unfoldable pub best : Text → List ℤ → List Text → Result Text
unfolding numbers less
best v k [] = ok v
best v k (w ∷ ws) = do m ← numbers w; if less k m then best w m ws else best v k ws

unfoldable pub highest_version : List Text → Result Text
unfolding best numbers
highest_version [] = err value_error
highest_version (v ∷ vs) = do k ← numbers v; best v k vs

-- `version.startswith(f"0.{major}.") and "rc" not in version`
unfoldable pub is_of : Text → Text → Bool
unfolding starts_with contains
is_of major version =
    starts_with version (48 ∷ 46 ∷ major ++ 46 ∷ []) && not (contains (codes "rc") version)

-- The majors as texts, the last of which is the first.
unfoldable pub last_three_majors : List Text → Result (List Text)
unfolding major_of distinct sort text_before
last_three_majors versions = do
  majors ← map_result major_of versions
  ok (take 3 (sort text_before (distinct majors)))

unfoldable pub last_three_versions : List Text → Result (List Text)
unfolding last_three_majors highest_version is_of keep
last_three_versions versions = do
  majors ← last_three_majors versions
  map_result (λ major. highest_version (keep (is_of major) versions)) majors

module _ (before : Text → Text → Bool) where
  -- `sorted(versions, key=parse_version, reverse=True)`, after at most five tries.
  unfoldable pub get_installable_vyper_versions :
      (replies : ℕ → Option (List Text)) → Result (List Text)
  unfolding releases_from sort
  get_installable_vyper_versions replies = do
    names ← releases_from replies 5 0
    ok (sort before names)

  unfoldable pub get_three_last_versions : (replies : ℕ → Option (List Text)) → Result (List Text)
  unfolding get_installable_vyper_versions last_three_versions
  get_three_last_versions replies = do
    versions ← get_installable_vyper_versions replies
    last_three_versions versions
