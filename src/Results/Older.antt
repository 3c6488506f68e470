-- ===== src/Results/Older.antt =====
-- What `get_previous_tags` returns.
use neon_tests.Prelude.{
  ℕ, zero, suc, ◌≤◌, ◌≡◌, refl, [], ◌∷◌, List, map, Bool, true, false, take, drop, length,
  length-take, All, inl, inr, Bool-cases, arith,
}
use neon_tests.Prelude.Text.{Text}
use neon_tests.Py.{ok}
use neon_tests.Results.Order.{keep, insert, sort, All-insert, All-sort, keep-passes}
use neon_tests.Results.Version.{is_github_tag, matches_github_tag}
use neon_tests.Results.Tables.{RepoType, repo_eq, Db, tag_column}
use neon_tests.Results.PreviousTags.{
  distinct, version_of, newest_first, from_older, get_previous_tags,
}

pub All-take {ℓ κ} :
    {A : Type ℓ} (P : A → Type κ) (n : ℕ) (xs : List A) → All P xs → All P (take n xs)
All-take P zero xs h = tt
All-take P (suc n) [] h = tt
All-take P (suc n) (x ∷ xs) (h, hs) = (h, All-take P n xs hs)

pub All-drop {ℓ κ} :
    {A : Type ℓ} (P : A → Type κ) (n : ℕ) (xs : List A) → All P xs → All P (drop n xs)
All-drop P zero xs h = h
All-drop P (suc n) [] h = tt
All-drop P (suc n) (x ∷ xs) (h, hs) = All-drop P n xs hs

-- An order of versions: not before is transitive and is compatible with before.
pub record IsVersionOrder {V : Type 0} (before : V → V → Bool) : Type 0 where
  pub asym : (x y : V) → before x y ≡ true → before y x ≡ false
  pub trans : (x y z : V) → before x y ≡ false → before y z ≡ false → before x z ≡ false
  pub older : (x y z : V) → before x y ≡ false → before x z ≡ true → before y z ≡ true

module _ {V : Type 0} (parse : Text → V) (before : V → V → Bool) where
  -- No tag before a later one in the list.
  abbrev pub IsDescending : List Text → Type 0
  IsDescending [] = Unit
  IsDescending (t ∷ ts) =
      All (λ u. before (version_of parse before t) (version_of parse before u) ≡ false) ts
      × IsDescending ts

  IsDescending-take : (n : ℕ) (ts : List Text) → IsDescending ts → IsDescending (take n ts)
  IsDescending-take zero ts h = tt
  IsDescending-take (suc n) [] h = tt
  IsDescending-take (suc n) (t ∷ ts) (h, hs) = (All-take _ n ts h, IsDescending-take n ts hs)

module _ {V : Type 0} (parse : Text → V) (before : V → V → Bool)
    (order : IsVersionOrder before) where
  abbrev ver : Text → V
  ver = version_of parse before

  above-All :
      (x y : Text) (ts : List Text)
      → before (ver x) (ver y) ≡ false
      → All (λ u. before (ver y) (ver u) ≡ false) ts
      → All (λ u. before (ver x) (ver u) ≡ false) ts
  above-All x y [] h hs = tt
  above-All x y (t ∷ ts) h (k, ks) =
      (order.trans (ver x) (ver y) (ver t) h k, above-All x y ts h ks)

  insert-IsDescending :
      (x : Text) (ts : List Text)
      → IsDescending parse before ts
      → IsDescending parse before (insert (λ x y. before (ver x) (ver y)) x ts)
  unfolding insert
  insert-IsDescending x [] h = (tt, tt)
  insert-IsDescending x (y ∷ ys) (h, hs) = elim (Bool-cases (before (ver x) (ver y))) [
    | inl e ↦ rw e (
      All-insert (λ u. before (ver y) (ver u) ≡ false) (λ x y. before (ver x) (ver y)) x ys
          (order.asym (ver x) (ver y) e) h,
      insert-IsDescending x ys hs,
    )
    | inr e ↦ rw e ((e, above-All x y ys e h), (h, hs))
  ]

  sort-IsDescending :
      (ts : List Text) → IsDescending parse before (sort (λ x y. before (ver x) (ver y)) ts)
  unfolding sort
  sort-IsDescending [] = tt
  sort-IsDescending (t ∷ ts) =
      insert-IsDescending t (sort (λ x y. before (ver x) (ver y)) ts) (sort-IsDescending ts)

  All-older :
      (t : Text) (latest : V) (ts : List Text)
      → before (ver t) latest ≡ true
      → All (λ u. before (ver t) (ver u) ≡ false) ts
      → All (λ u. before (ver u) latest ≡ true) ts
  All-older t latest [] e h = tt
  All-older t latest (u ∷ ts) e (h, hs) =
      (order.older (ver t) (ver u) latest h e, All-older t latest ts e hs)

  from_older-Older :
      (latest : V) (ts : List Text)
      → IsDescending parse before ts
      → All (λ t. before (ver t) latest ≡ true) (from_older parse before latest ts)
        × IsDescending parse before (from_older parse before latest ts)
  unfolding from_older
  from_older-Older latest [] h = (tt, tt)
  from_older-Older latest (t ∷ ts) (h, hs) = elim (Bool-cases (before (ver t) latest)) [
    | inl e ↦ rw e ((e, All-older t latest ts e h), (h, hs))
    | inr e ↦ rw e (from_older-Older latest ts hs)
  ]

  from_older-All :
      (P : Text → Type 0) (latest : V) (ts : List Text)
      → All P ts
      → All P (from_older parse before latest ts)
  unfolding from_older
  from_older-All P latest [] h = tt
  from_older-All P latest (t ∷ ts) (h, hs) = elim (Bool-cases (before (ver t) latest)) [
    | inl e ↦ rw e (h, hs)
    | inr e ↦ rw e (from_older-All P latest ts hs)
  ]

  -- For the name of a release, in an order of versions, the query returns at most `limit` names of
  -- releases, all of versions before that one, the newest first.
  pub get_previous_tags-older :
      (repo : RepoType) (tag : Text) (limit : ℕ) (db : Db)
      → is_github_tag tag ≡ true
      → (ts : List Text) × (get_previous_tags parse before repo tag limit db ≡ ok ts)
        × All (λ t. before (ver t) (ver tag) ≡ true) ts
        × All (λ t. matches_github_tag t ≡ true) ts
        × IsDescending parse before ts
        × (length ts ≤ limit)
  unfolding get_previous_tags newest_first
  get_previous_tags-older repo tag limit db e =
      let tags = distinct (map (tag_column repo) (keep (λ r. repo_eq r.repo repo) db.reports)) in
      let names = keep matches_github_tag tags in
      let sorted = newest_first parse before names in
      let (old, descending) = from_older-Older (ver tag) sorted (sort-IsDescending names) in
      (
        take limit (from_older parse before (ver tag) sorted),
        rw e refl,
        All-take _ limit _ old,
        All-take _ limit _ (
            from_older-All _ (ver tag) sorted (
              All-sort _ (λ x y. before (ver x) (ver y)) names
                (keep-passes matches_github_tag tags))),
        IsDescending-take parse before limit _ descending,
        omega (arith, length-take {0} limit (from_older parse before (ver tag) sorted)),
      )
