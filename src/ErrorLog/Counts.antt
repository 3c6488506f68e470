-- ===== src/ErrorLog/Counts.antt =====
-- What `get_count_by_group` says of a group.
use neon_tests.Prelude.{
  ℕ, ◌+◌, ◌≡◌, refl, sym, ◌∙◌, ap, inl, inr, [], ◌∷◌, List, Option, none, some, map, arith, ltb,
  ◌==◌, if◌then◌else◌, length, Bool, true, false, ◌||◌, Bool-cases, ==_iff,
}
use neon_tests.Prelude.Text.{Text}
use neon_tests.ErrorLog.{
  TestGroup, economy, basic, tracer, services, oz, ui, evm, compiler_compatibility, Groups,
  group_number, group_eq, find, or_else, names_of, Log, positive_counts, has_key, union_keys,
  summed, count_by_group,
}

abbrev pub group_at : ℕ → TestGroup
group_at n =
    if n == 0
    then economy
    else if n == 1
    then basic
    else if n == 2
    then tracer
    else if n == 3
    then services
    else if n == 4
    then oz
    else if n == 5
    then ui
    else if n == 6
    then evm
    else compiler_compatibility

pub group_at-number : (g : TestGroup) → group_at (group_number g) ≡ g
group_at-number economy = refl
group_at-number basic = refl
group_at-number tracer = refl
group_at-number services = refl
group_at-number oz = refl
group_at-number ui = refl
group_at-number evm = refl
group_at-number compiler_compatibility = refl

pub group_eq_sound : (k g : TestGroup) → group_eq k g ≡ true → k ≡ g
group_eq_sound k g e =
    sym (group_at-number k)
    ∙ ap group_at ((==_iff (group_number k) (group_number g)).0 e)
    ∙ group_at-number g

true-or : (b c : Bool) → b ≡ true → (b || c) ≡ false → ⊥
true-or true c e h = cc
true-or false c e h = cc

find-absent : {A : Type 0} (g : TestGroup) (ds : Groups A) → has_key g ds ≡ false → find g ds ≡ none
find-absent g [] e = refl
find-absent g ((k, a) ∷ ds) e = elim (Bool-cases (group_eq k g)) [
  | inl same ↦ absurd (true-or (group_eq k g) (has_key g ds) same e)
  | inr other ↦ rw other (find-absent g ds (rw other at e))
]

-- Of a count, what the dictionary keeps.
abbrev pub if_positive : ℕ → Option ℕ
if_positive n = if ltb 0 n then some n else none

pub find-same :
    {A : Type 0} (k g : TestGroup) (a : A) (ds : Groups A)
    → group_eq k g ≡ true
    → find g ((k, a) ∷ ds) ≡ some a
find-same k g a ds e = rw e refl

pub find-other :
    {A : Type 0} (k g : TestGroup) (a : A) (ds : Groups A)
    → group_eq k g ≡ false
    → find g ((k, a) ∷ ds) ≡ find g ds
find-other k g a ds e = rw e refl

find-kept-same :
    (b : Bool) (k g : TestGroup) (n : ℕ) (ds : Groups ℕ)
    → group_eq k g ≡ true
    → find g (if b then (k, n) ∷ ds else ds) ≡ (if b then some n else find g ds)
find-kept-same true k g n ds e = find-same k g n ds e
find-kept-same false k g n ds e = refl

find-kept-other :
    (b : Bool) (k g : TestGroup) (n : ℕ) (ds : Groups ℕ)
    → group_eq k g ≡ false
    → find g (if b then (k, n) ∷ ds else ds) ≡ find g ds
find-kept-other true k g n ds e = find-other k g n ds e
find-kept-other false k g n ds e = refl

counted :
    (h b : Bool) (n : ℕ) {o : Option ℕ}
    → o ≡ (if h then (if b then some n else none) else none)
    → (if b then some n else o) ≡ (if b then some n else none)
counted h true n e = refl
counted true false n e = e
counted false false n e = e

-- The names of a group are counted if its key is among those that are left.
find-counts :
    (g : TestGroup) (all ds : Groups (List Text))
    → find g (positive_counts all ds)
      ≡ (if has_key g ds then if_positive (length (names_of g all)) else none)
unfolding positive_counts
find-counts g all [] = refl
find-counts g all ((k, names) ∷ ds) = elim (Bool-cases (group_eq k g)) [
  | inl same ↦
      let n = length (names_of g all) in
      find-kept-same (ltb 0 (length (names_of k all))) k g (length (names_of k all))
        (positive_counts all ds) same
      ∙ ap (λ m. if ltb 0 m then some m else find g (positive_counts all ds))
          (ap (λ x. length (names_of x all)) (group_eq_sound k g same))
      ∙ counted (has_key g ds) (ltb 0 n) n (find-counts g all ds)
      ∙ sym (ap (λ b. if b || has_key g ds then if_positive n else none) same)
  | inr other ↦
      find-kept-other (ltb 0 (length (names_of k all))) k g (length (names_of k all))
        (positive_counts all ds) other
      ∙ find-counts g all ds
      ∙ sym (
          ap (λ b. if b || has_key g ds then if_positive (length (names_of g all)) else none) other)
]

-- A group without a key has no names.
find-positive :
    (g : TestGroup) (all : Groups (List Text))
    → find g (positive_counts all all) ≡ if_positive (length (names_of g all))
find-positive g all = elim (Bool-cases (has_key g all)) [
  | inl present ↦ find-counts g all all ∙ rw present refl
  | inr absent ↦
      find-counts g all all
      ∙ rw absent (sym (ap (λ o. if_positive (length (or_else [] o))) (find-absent g all absent)))
]

has_group : TestGroup → List TestGroup → Bool
has_group g [] = false
has_group g (k ∷ ks) = group_eq k g || has_group g ks

has_group-keys : (g : TestGroup) (ds : Groups ℕ) → has_group g (map (λ d. d.0) ds) ≡ has_key g ds
unfolding has_group
has_group-keys g [] = refl
has_group-keys g ((k, a) ∷ ds) = ap (λ b. group_eq k g || b) (has_group-keys g ds)

or-swap : (a b c : Bool) → ((a || b) || c) ≡ (b || (a || c))
or-swap true true c = refl
or-swap true false c = refl
or-swap false b c = refl

or-seen : (a b c : Bool) → (a ≡ true → b ≡ true) → (b || c) ≡ (b || (a || c))
or-seen a true c h = refl
or-seen false false c h = refl
or-seen true false c h = absurd (absurd-of (h refl))
  where
    absurd-of : false ≡ true → ⊥
    absurd-of e = cc

union_keys-has :
    (g : TestGroup) (ds es : Groups ℕ)
    → has_group g (union_keys ds es) ≡ (has_key g ds || has_key g es)
unfolding union_keys
union_keys-has g ds [] = has_group-keys g ds ∙ or-false (has_key g ds)
  where
    or-false : (b : Bool) → b ≡ (b || false)
    or-false true = refl
    or-false false = refl
union_keys-has g ds ((k, n) ∷ es) = elim (Bool-cases (has_key k ds)) [
  | inl seen ↦ rw seen (
      union_keys-has g ds es
      ∙ or-seen (group_eq k g) (has_key g ds) (has_key g es)
          (λ e. subst-key (group_eq_sound k g e) seen))
  | inr new ↦
      rw new
        (union_keys-has g ((k, n) ∷ ds) es ∙ or-swap (group_eq k g) (has_key g ds) (has_key g es))
]
  where
    subst-key : {x y : TestGroup} → x ≡ y → has_key x ds ≡ true → has_key y ds ≡ true
    subst-key e h = sym (ap (λ z. has_key z ds) e) ∙ h

find-summed :
    (g : TestGroup) (ds es : Groups ℕ) (ks : List TestGroup)
    → find g (summed ds es ks)
      ≡ (if has_group g ks then some (or_else 0 (find g ds) + or_else 0 (find g es)) else none)
unfolding summed has_group
find-summed g ds es [] = refl
find-summed g ds es (k ∷ ks) = elim (Bool-cases (group_eq k g)) [
  | inl same ↦
      rw same
        (ap (λ x. some (or_else 0 (find x ds) + or_else 0 (find x es))) (group_eq_sound k g same))
  | inr other ↦ rw other (find-summed g ds es ks)
]

is_some : Option ℕ → Bool
is_some none = false
is_some (some n) = true

has_key-is_some : (g : TestGroup) (ds : Groups ℕ) → has_key g ds ≡ is_some (find g ds)
unfolding is_some
has_key-is_some g [] = refl
has_key-is_some g ((k, a) ∷ ds) = elim (Bool-cases (group_eq k g)) [
  | inl same ↦ rw same refl
  | inr other ↦ rw other (has_key-is_some g ds)
]

is_some-if_positive : (n : ℕ) → is_some (if_positive n) ≡ ltb 0 n
unfolding is_some
is_some-if_positive n = ground arith

total :
    (m n : ℕ)
    → (if ltb 0 m || ltb 0 n
        then some (or_else 0 (if_positive m) + or_else 0 (if_positive n))
        else none)
      ≡ if_positive (m + n)
total m n = ground arith

-- A group has a count if it has failures or errors, and then the count is how many they are
-- together.
pub find-count_by_group :
    (log : Log) (g : TestGroup)
    → find g (count_by_group log)
      ≡ if_positive (length (names_of g log.failures) + length (names_of g log.errors))
unfolding count_by_group
find-count_by_group log g =
    let failed = positive_counts log.failures log.failures in
    let errored = positive_counts log.errors log.errors in
    find-summed g failed errored (union_keys failed errored)
    ∙ rw
        (
          union_keys-has g failed errored,
          has_key-is_some g failed,
          has_key-is_some g errored,
          find-positive g log.failures,
          find-positive g log.errors,
          is_some-if_positive (length (names_of g log.failures)),
          is_some-if_positive (length (names_of g log.errors)),
        )
        (total (length (names_of g log.failures)) (length (names_of g log.errors)))
