-- ===== src/Prelude/Dict.antt =====
-- Dictionaries whose keys are texts, as association lists.
use mathlib.Core.Path.{◌≡◌, refl, ap, ◌∙◌}
use mathlib.Core.Logic.{inl, inr}
use mathlib.Core.Bool.{true, false}
use mathlib.Core.Option.{Option, none, some}
use mathlib.Core.List.{List, [], ◌∷◌}
use neon_tests.Prelude.Tests.{if◌then◌else◌, Bool-cases}
use neon_tests.Prelude.Text.{Text, text_eq, text_eq_iff}

abbrev pub Dict {ℓ} : Type ℓ → Type ℓ
Dict A = List (Text × A)

module _ {ℓ} {A : Type ℓ} where
  -- `d.get(k)`
  abbrev pub lookup : Text → Dict A → Option A
  lookup k [] = none
  lookup k ((j, a) ∷ d) = if text_eq j k then some a else lookup k d

  -- `d[k] = a`: a key that is there keeps its place, a new one is the last.
  abbrev pub put : Text → A → Dict A → Dict A
  put k a [] = (k, a) ∷ []
  put k a ((j, b) ∷ d) = if text_eq j k then (j, a) ∷ d else (j, b) ∷ put k a d

  -- `del d[k]`
  abbrev pub without : Text → Dict A → Dict A
  without k [] = []
  without k ((j, b) ∷ d) = if text_eq j k then d else (j, b) ∷ without k d

  abbrev pub keys : Dict A → List Text
  keys [] = []
  keys ((j, b) ∷ d) = j ∷ keys d

pub text_eq_refl : (t : Text) → text_eq t t ≡ true
text_eq_refl t = (text_eq_iff t t).1 refl

-- Two texts of which a third is one and not the other.
pub text_eq_other : (j k m : Text) → text_eq j k ≡ true → text_eq k m ≡ false → text_eq j m ≡ false
text_eq_other j k m e f = ap (λ t. text_eq t m) ((text_eq_iff j k).0 e) ∙ f

module _ {ℓ} {A : Type ℓ} where
  pub lookup-put : (k : Text) (a : A) (d : Dict A) → lookup k (put k a d) ≡ some a
  lookup-put k a [] = rw (text_eq_refl k) refl
  lookup-put k a ((j, b) ∷ d) = elim (Bool-cases (text_eq j k)) [
    | inl e ↦ rw (e, e) refl
    | inr e ↦ rw (e, e) (lookup-put k a d)
  ]

  pub lookup-put_other :
      (k m : Text) (a : A) (d : Dict A) → text_eq k m ≡ false → lookup m (put k a d) ≡ lookup m d
  lookup-put_other k m a [] f = rw f refl
  lookup-put_other k m a ((j, b) ∷ d) f = elim (Bool-cases (text_eq j k)) [
    | inl e ↦ rw (e, text_eq_other j k m e f) refl
    | inr e ↦ elim (Bool-cases (text_eq j m)) [
      | inl g ↦ rw (e, g) refl
      | inr g ↦ rw (e, g) (lookup-put_other k m a d f)
    ]
  ]

  pub put-put : (k : Text) (a b : A) (d : Dict A) → put k b (put k a d) ≡ put k b d
  put-put k a b [] = rw (text_eq_refl k) refl
  put-put k a b ((j, c) ∷ d) = elim (Bool-cases (text_eq j k)) [
    | inl e ↦ rw (e, e) refl
    | inr e ↦ rw (e, e) (ap (λ t. (j, c) ∷ t) (put-put k a b d))
  ]

  -- A new key that is removed again leaves the dictionary as it was.
  pub without-put : (k : Text) (a : A) (d : Dict A) → lookup k d ≡ none → without k (put k a d) ≡ d
  without-put k a [] h = rw (text_eq_refl k) refl
  without-put k a ((j, b) ∷ d) h = elim (Bool-cases (text_eq j k)) [
    | inl e ↦ absurd (present (rw e at h))
    | inr e ↦ rw (e, e) (ap (λ t. (j, b) ∷ t) (without-put k a d (rw e at h)))
  ]
    where
      present : some b ≡ none → ⊥
      present p = cc
