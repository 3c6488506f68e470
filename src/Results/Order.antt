-- ===== src/Results/Order.antt =====
-- Sorting and filtering of lists.
use neon_tests.Prelude.{
  ◌≡◌, refl, [], ◌∷◌, ◌++◌, List, ltb, ◌==◌, if◌then◌else◌, Bool, true, false, ◌&&◌, ◌||◌, All, inl,
  inr, Bool-cases,
}
use neon_tests.Prelude.Text.{Text}

-- `[x for x in xs if p(x)]`
unfoldable pub keep {ℓ} : {A : Type ℓ} → (A → Bool) → List A → List A
keep p [] = []
keep p (x ∷ xs) = if p x then x ∷ keep p xs else keep p xs

-- The order of two texts by code points.
unfoldable pub text_before : Text → Text → Bool
text_before [] [] = false
text_before [] (y ∷ ys) = true
text_before (x ∷ xs) [] = false
text_before (x ∷ xs) (y ∷ ys) = ltb x y || (x == y && text_before xs ys)

-- A stable sort: `x` stands before `y` unless `after x y`.
unfoldable pub insert {ℓ} : {A : Type ℓ} → (A → A → Bool) → A → List A → List A
insert after x [] = x ∷ []
insert after x (y ∷ ys) = if after x y then y ∷ insert after x ys else x ∷ y ∷ ys

unfoldable pub sort {ℓ} : {A : Type ℓ} → (A → A → Bool) → List A → List A
unfolding insert
sort after [] = []
sort after (x ∷ xs) = insert after x (sort after xs)

module _ {ℓ κ} {A : Type ℓ} (P : A → Type κ) where
  pub All-keep : (p : A → Bool) (xs : List A) → All P xs → All P (keep p xs)
  unfolding keep
  All-keep p [] h = tt
  All-keep p (x ∷ xs) (h, hs) = elim (Bool-cases (p x)) [
    | inl e ↦ rw e (h, All-keep p xs hs)
    | inr e ↦ rw e (All-keep p xs hs)
  ]

  pub All-insert :
      (after : A → A → Bool) (x : A) (xs : List A) → P x → All P xs → All P (insert after x xs)
  unfolding insert
  All-insert after x [] h hs = (h, tt)
  All-insert after x (y ∷ ys) h (k, ks) = elim (Bool-cases (after x y)) [
    | inl e ↦ rw e (k, All-insert after x ys h ks)
    | inr e ↦ rw e (h, (k, ks))
  ]

  pub All-sort : (after : A → A → Bool) (xs : List A) → All P xs → All P (sort after xs)
  unfolding sort
  All-sort after [] h = tt
  All-sort after (x ∷ xs) (h, hs) = All-insert after x (sort after xs) h (All-sort after xs hs)

module _ {ℓ} {A : Type ℓ} (p : A → Bool) where
  -- What is kept passes the test.
  pub keep-passes : (xs : List A) → All (λ x. p x ≡ true) (keep p xs)
  unfolding keep
  keep-passes [] = tt
  keep-passes (x ∷ xs) = elim (Bool-cases (p x)) [
    | inl e ↦ rw e (e, keep-passes xs)
    | inr e ↦ rw e (keep-passes xs)
  ]

  pub keep-append : (xs ys : List A) → keep p (xs ++ ys) ≡ keep p xs ++ keep p ys
  unfolding keep
  keep-append [] ys = refl
  keep-append (x ∷ xs) ys = elim (Bool-cases (p x)) [
    | inl e ↦ rw e (λ i. x ∷ keep-append xs ys i)
    | inr e ↦ rw e (keep-append xs ys)
  ]
