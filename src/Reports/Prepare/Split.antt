-- ===== src/Reports/Prepare/Split.antt =====
-- The order of numbered actions: the name and the number of an action are read back.
use neon_tests.Prelude.{
  ◌==◌, ◌||◌, any, ℕ, zero, suc, ◌+◌, ◌*◌, ◌-◌, ◌/◌, ◌%◌, ◌<◌, ◌≡◌, refl, ap, ◌∙◌, [], ◌∷◌, ◌++◌,
  none, some, ltb, ◌&&◌, all, append_assoc, Bool, true, false, inl, inr, Bool-cases, arith,
}
use neon_tests.Prelude.Text.{Text, is_digit}
use neon_tests.Py.{ok}
use neon_tests.Cli.Words.{is_space}
use neon_tests.Reports.{digits, decimal, numbered}
use neon_tests.Reports.Prepare.{
  last_line_end, last_digits, after_space, number_of, split_from, split_action,
}

-- The digits of a number, before a text.
number_of-digits :
    (f n : ℕ) (text : Text) → n < f → number_of 0 (digits f n text) ≡ number_of n text
unfolding digits
number_of-digits zero n text h = absurd (omega arith)
number_of-digits (suc f) n text h = elim (Bool-cases (ltb n 10)) [
  | inl small ↦
      rw small (ap (λ (k : ℕ). number_of k text) {x = 10 * 0 + (48 + n - 48)} {y = n} (omega arith))
  | inr large ↦ rw large (
      number_of-digits f (n / 10) ((48 + n % 10) ∷ text) (smaller large)
      ∙ ap (λ (k : ℕ). number_of k text) {x = 10 * (n / 10) + (48 + n % 10 - 48)} {y = n}
          (omega arith))
]
  where
    smaller : ltb n 10 ≡ false → n / 10 < f
    smaller e = ground arith

all-digits :
    (f n : ℕ) (text : Text)
    → n < f
    → all is_digit text ≡ true
    → all is_digit (digits f n text) ≡ true
unfolding digits
all-digits zero n text h e = absurd (omega arith)
all-digits (suc f) n text h e = elim (Bool-cases (ltb n 10)) [
  | inl small ↦ rw small (last n small)
  | inr large ↦ rw large (all-digits f (n / 10) ((48 + n % 10) ∷ text) (smaller large) rest)
]
  where
    digit : (d : ℕ) → d < 10 → is_digit (48 + d) ≡ true
    digit d q = ground arith

    last : (n : ℕ) → ltb n 10 ≡ true → (is_digit (48 + n) && all is_digit text) ≡ true
    last n q = ground (arith, e)

    rest : (is_digit (48 + n % 10) && all is_digit text) ≡ true
    rest = rw (digit (n % 10) (omega arith)) e

    smaller : ltb n 10 ≡ false → n / 10 < f
    smaller q = ground arith

digit-not_space : (c : ℕ) → is_digit c ≡ true → is_space c ≡ false
unfolding is_space
digit-not_space c h = ground arith

last_digits-all : (ds : Text) → all is_digit ds ≡ true → last_digits ds ≡ some ds
last_digits-all [] h = refl
last_digits-all (d ∷ ds) h = elim (Bool-cases (is_digit d)) [
  | inl e ↦ rw (e, last_digits-all ds (rw e at h)) refl
  | inr e ↦ absurd (false-true (rw e at h))
]
  where
    false-true : false ≡ true → ⊥
    false-true q = cc

-- A blank and some digits.
after_space-digits : (ds : Text) → all is_digit ds ≡ true → after_space (32 ∷ ds) ≡ some ds
unfolding is_space
after_space-digits [] h = refl
after_space-digits (d ∷ ds) h =
    rw (digit-not_space d (and-left (is_digit d) (all is_digit ds) h)) (last_digits-all (d ∷ ds) h)
  where
    and-left : (a b : Bool) → (a && b) ≡ true → a ≡ true
    and-left true b q = refl
    and-left false b q = cc

-- A character that is neither white space nor a digit.
abbrev pub IsPlain : ℕ → Type 0
IsPlain c = (is_space c ≡ false) × (is_digit c ≡ false)

plain-not_line_end : (c : ℕ) → is_space c ≡ false → (c == 10) ≡ false
unfolding is_space
plain-not_line_end c h = ground arith

last_line_end-more : (c d : ℕ) (xs ds : Text) → last_line_end c (xs ++ d ∷ ds) ≡ none
last_line_end-more c d [] ds = refl
last_line_end-more c d (x ∷ xs) ds = refl

last_line_end-plain : (c : ℕ) (rest : Text) → (c == 10) ≡ false → last_line_end c rest ≡ none
last_line_end-plain c [] h = rw h refl
last_line_end-plain c (d ∷ ds) h = refl

last_digits-plain : (xs rest : Text) (c : ℕ) → IsPlain c → last_digits (xs ++ c ∷ rest) ≡ none
last_digits-plain [] rest c (s, d) = rw d (last_line_end-plain c rest (plain-not_line_end c s))
last_digits-plain (x ∷ xs) rest c plain = elim (Bool-cases (is_digit x)) [
  | inl e ↦ rw (e, last_digits-plain xs rest c plain) refl
  | inr e ↦ rw e (last_line_end-more x c xs rest)
]

-- Such a character is no part of the end of a text.
after_space-plain : (xs rest : Text) (c : ℕ) → IsPlain c → after_space (xs ++ c ∷ rest) ≡ none
after_space-plain [] rest c (s, d) = rw s (last_digits-plain [] rest c (s, d))
after_space-plain (x ∷ xs) rest c plain = elim (Bool-cases (is_space x)) [
  | inl space ↦ rw space (after_space-plain xs rest c plain)
  | inr other ↦ rw other (last_digits-plain (x ∷ xs) rest c plain)
]

-- A text of one line.
abbrev pub IsLine : Text → Type 0
IsLine t = any (λ x. x == 10) t ≡ false

or-both : (a b : Bool) → (a || b) ≡ false → (a ≡ false) × (b ≡ false)
or-both a b h = ground arith

split_from-numbered :
    (piece xs ds : Text) (c : ℕ)
    → IsLine xs
    → IsPlain c
    → all is_digit ds ≡ true
    → split_from piece (xs ++ c ∷ 32 ∷ ds) ≡ ok (piece ++ (xs ++ c ∷ []), number_of 0 ds)
unfolding split_from
split_from-numbered piece [] ds c line plain h =
    rw (plain-not_line_end c plain.0, after_space-digits ds h) refl
split_from-numbered piece (x ∷ xs) ds c line plain h =
    let (first, others) = or-both (x == 10) (any (λ y. y == 10) xs) line in
    rw (first, after_space-plain xs (32 ∷ ds) c plain)
      (split_from-numbered (piece ++ x ∷ []) xs ds c others plain h
        ∙ ap (λ t. ok (t, number_of 0 ds)) (append_assoc piece (x ∷ []) (xs ++ c ∷ [])))

-- If a name is of one line and ends with a character that is neither white space nor a digit, then the
-- name with a number behind it, as a repeated action gets it, is split into that name and that number.
pub split_action-numbered :
    (xs : Text) (c n : ℕ)
    → IsLine xs
    → IsPlain c
    → split_action (numbered (xs ++ c ∷ []) n) ≡ ok (xs ++ c ∷ [], n)
unfolding split_action decimal
split_action-numbered xs c n line plain =
    ap (split_from []) (append_assoc xs (c ∷ []) (32 ∷ decimal n))
    ∙ split_from-numbered [] xs (decimal n) c line plain
        (all-digits (n + 1) n [] (omega arith) refl)
    ∙ ap (λ (k : ℕ). ok (xs ++ c ∷ [], k)) (number_of-digits (n + 1) n [] (omega arith))
