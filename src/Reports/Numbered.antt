-- ===== src/Reports/Numbered.antt =====
-- Which names the actions of a report get.
use neon_tests.Prelude.{
  true-ne-false, or_rest, ℕ, ◌+◌, ◌≡◌, refl, sym, ◌∙◌, ap, [], ◌∷◌, ◌++◌, List, ltb, not,
  if◌then◌else◌, Bool, true, false, ◌&&◌, ◌||◌, inl, inr, Bool-cases, arith,
}
use neon_tests.Prelude.Text.{Text, text_eq, text_eq_iff}
use neon_tests.Results.Order.{keep}
use neon_tests.Results.PreviousTags.{distinct, is_among}
use neon_tests.Reports.{
  count, duplicate_actions, first_numbers, number_of, increment, numbered, name_actions,
  unique_names,
}

-- The name of an action by itself: with the number of its occurrence if there are others of the
-- name, and as it is if there are not.
pub name_at : List Text → List Text → Text → Text
name_at names before t = if ltb 1 (count t names) then numbered t (count t before + 1) else t

-- The names of the actions behind `before`.
pub names_at : List Text → List Text → List Text → List Text
names_at names before [] = []
names_at names before (t ∷ ts) = name_at names before t ∷ names_at names (before ++ t ∷ []) ts

text_eq_refl : (t : Text) → text_eq t t ≡ true
text_eq_refl t = (text_eq_iff t t).1 refl

-- A test that equal texts share.
is_among-keep :
    (p : Text → Bool) (t : Text) (ts : List Text) → is_among (keep p ts) t ≡ (is_among ts t && p t)
unfolding keep
is_among-keep p t [] = refl
is_among-keep p t (u ∷ us) = elim (Bool-cases (text_eq u t)) [
  | inl e ↦ elim (Bool-cases (p u)) [
    | inl k ↦ rw (k, e) (sym (ap p (sym ((text_eq_iff u t).0 e)) ∙ k))
    | inr k ↦ rw k (
        is_among-keep p t us
        ∙ ap (λ b. is_among us t && b) (ap p (sym ((text_eq_iff u t).0 e)) ∙ k)
        ∙ and-false (is_among us t)
        ∙ sym (rw e (ap p (sym ((text_eq_iff u t).0 e)) ∙ k)))
  ]
  | inr e ↦ elim (Bool-cases (p u)) [
    | inl k ↦ rw (k, e) (is_among-keep p t us)
    | inr k ↦ rw (k, e) (is_among-keep p t us)
  ]
]
  where
    and-false : (b : Bool) → (b && false) ≡ false
    and-false true = refl
    and-false false = refl

or-not : (a b : Bool) → (a || (b && not a)) ≡ (a || b)
or-not true b = refl
or-not false true = refl
or-not false false = refl

is_among-distinct : (t : Text) (ts : List Text) → is_among (distinct ts) t ≡ is_among ts t
unfolding distinct
is_among-distinct t [] = refl
is_among-distinct t (u ∷ us) =
    ap (λ b. text_eq u t || b)
      (is_among-keep (λ x. not (text_eq u x)) t (distinct us)
        ∙ ap (λ b. b && not (text_eq u t)) (is_among-distinct t us))
    ∙ or-not (text_eq u t) (is_among us t)

is_among-count : (t : Text) (ts : List Text) → is_among ts t ≡ ltb 0 (count t ts)
unfolding count
is_among-count t [] = refl
is_among-count t (u ∷ us) = elim (Bool-cases (text_eq u t)) [
  | inl e ↦ rw e (positive (count t us))
  | inr e ↦ rw e (is_among-count t us)
]
  where
    positive : (n : ℕ) → true ≡ ltb 0 (1 + n)
    positive n = ground arith

-- The duplicates are the names that occur more than once.
is_among-duplicate_actions :
    (t : Text) (names : List Text) → is_among (duplicate_actions names) t ≡ ltb 1 (count t names)
unfolding duplicate_actions
is_among-duplicate_actions t names =
    is_among-keep (λ x. ltb 1 (count x names)) t (distinct names)
    ∙ ap (λ b. b && ltb 1 (count t names)) (is_among-distinct t names ∙ is_among-count t names)
    ∙ both (count t names)
  where
    both : (n : ℕ) → (ltb 0 n && ltb 1 n) ≡ ltb 1 n
    both n = ground arith

keys : List (Text × ℕ) → List Text
keys [] = []
keys ((k, n) ∷ ds) = k ∷ keys ds

keys-first_numbers : (ts : List Text) → keys (first_numbers ts) ≡ ts
unfolding keys first_numbers
keys-first_numbers [] = refl
keys-first_numbers (t ∷ ts) = ap (λ x. t ∷ x) (keys-first_numbers ts)

number_of-first_numbers :
    (u : Text) (ts : List Text) → is_among ts u ≡ true → number_of u (first_numbers ts) ≡ 1
unfolding number_of first_numbers
number_of-first_numbers u [] h = cc
number_of-first_numbers u (t ∷ ts) h = elim (Bool-cases (text_eq t u)) [
  | inl e ↦ rw e refl
  | inr e ↦ rw e (number_of-first_numbers u ts (or_rest (text_eq t u) (is_among ts u) e h))
]

keys-increment : (t : Text) (ds : List (Text × ℕ)) → keys (increment t ds) ≡ keys ds
unfolding keys increment
keys-increment t [] = refl
keys-increment t ((k, n) ∷ ds) = elim (Bool-cases (text_eq k t)) [
  | inl e ↦ rw e refl
  | inr e ↦ rw e (ap (λ x. k ∷ x) (keys-increment t ds))
]

abbrev one_if : Bool → ℕ
one_if true = 1
one_if false = 0

text_eq_apart : (k t u : Text) → text_eq k t ≡ false → text_eq k u ≡ true → text_eq t u ≡ false
text_eq_apart k t u e f = elim (Bool-cases (text_eq t u)) [
  | inl g ↦ absurd (
      true-ne-false
        (sym ((text_eq_iff k t).1 ((text_eq_iff k u).0 f ∙ sym ((text_eq_iff t u).0 g))) ∙ e))
  | inr g ↦ g
]

number_of-increment :
    (t u : Text) (ds : List (Text × ℕ))
    → is_among (keys ds) t ≡ true
    → number_of u (increment t ds) ≡ number_of u ds + one_if (text_eq t u)
unfolding keys number_of increment
number_of-increment t u [] h = cc
number_of-increment t u ((k, n) ∷ ds) h = elim (Bool-cases (text_eq k t)) [
  | inl e ↦
      let moved : text_eq t u ≡ text_eq k u = ap (λ x. text_eq x u) (sym ((text_eq_iff k t).0 e)) in
      elim (Bool-cases (text_eq k u)) [
        | inl f ↦ rw (e, moved, f) refl
        | inr f ↦ rw (e, moved, f) (omega arith)
      ]
  | inr e ↦ elim (Bool-cases (text_eq k u)) [
    | inl f ↦ rw (e, text_eq_apart k t u e f, f) (omega arith)
    | inr f ↦
        rw (e, f) (number_of-increment t u ds (or_rest (text_eq k t) (is_among (keys ds) t) e h))
  ]
]

count-snoc :
    (u : Text) (ns : List Text) (t : Text)
    → count u (ns ++ t ∷ []) ≡ count u ns + one_if (text_eq t u)
unfolding count
count-snoc u [] t = elim (Bool-cases (text_eq t u)) [ inl e ↦ rw e refl | inr e ↦ rw e refl ]
count-snoc u (n ∷ ns) t = elim (Bool-cases (text_eq n u)) [
  | inl e ↦ rw e (ap (λ (m : ℕ). 1 + m) (count-snoc u ns t) ∙ omega arith)
  | inr e ↦ rw e (count-snoc u ns t)
]

-- The loop, with the numbers that the names behind `before` get next.
name_actions-names_at :
    (names before : List Text) (numbers : List (Text × ℕ)) (ts : List Text)
    → keys numbers ≡ duplicate_actions names
    → ((u : Text)
        → is_among (duplicate_actions names) u ≡ true
        → number_of u numbers ≡ count u before + 1)
    → name_actions (duplicate_actions names) numbers ts ≡ names_at names before ts
unfolding name_actions names_at name_at
name_actions-names_at names before numbers [] k h = refl
name_actions-names_at names before numbers (t ∷ ts) k h =
    elim (Bool-cases (is_among (duplicate_actions names) t)) [
      | inl e ↦
          let many : ltb 1 (count t names) ≡ true = sym (is_among-duplicate_actions t names) ∙ e in
          rw (e, many, h t e)
            (ap (λ x. numbered t (count t before + 1) ∷ x)
              (name_actions-names_at names (before ++ t ∷ []) (increment t numbers) ts
                (keys-increment t numbers ∙ k)
                λ u m.
                  number_of-increment t u numbers (ap (λ x. is_among x t) k ∙ e)
                  ∙ ap (λ (n : ℕ). n + one_if (text_eq t u)) (h u m)
                  ∙ swap (count u before) (one_if (text_eq t u))
                  ∙ ap (λ (n : ℕ). n + 1) (sym (count-snoc u before t))))
      | inr e ↦
          let few : ltb 1 (count t names) ≡ false = sym (is_among-duplicate_actions t names) ∙ e in
          rw (e, few)
            (ap (λ x. t ∷ x)
              (name_actions-names_at names (before ++ t ∷ []) numbers ts k
                λ u m. h u m ∙ ap (λ (n : ℕ). n + 1) (sym (count-snoc u before t ∙ other u m e))))
    ]
  where
    swap : (a b : ℕ) → a + 1 + b ≡ a + b + 1
    swap a b = omega arith

    other :
        (u : Text)
        → is_among (duplicate_actions names) u ≡ true
        → is_among (duplicate_actions names) t ≡ false
        → count u before + one_if (text_eq t u) ≡ count u before
    other u m e = elim (Bool-cases (text_eq t u)) [
      | inl same ↦ absurd (
          true-ne-false
            (sym m ∙ ap (is_among (duplicate_actions names)) (sym ((text_eq_iff t u).0 same)) ∙ e))
      | inr apart ↦ rw apart (omega arith)
    ]

-- Every action keeps its name if no other has it, and otherwise gets the number of its occurrence,
-- counted from 1 in the order of the actions.
pub unique_names-names_at : (names : List Text) → unique_names names ≡ names_at names [] names
unfolding unique_names
unique_names-names_at names =
    name_actions-names_at names [] (first_numbers (duplicate_actions names)) names
      (keys-first_numbers (duplicate_actions names))
      (λ u m. number_of-first_numbers u (duplicate_actions names) m)
