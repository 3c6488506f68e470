-- ===== src/Cli/Words.antt =====
-- `str.split()`.
use neon_tests.Prelude.{
  ℕ, ◌≡◌, refl, [], ◌∷◌, ◌++◌, List, any, leb, ◌==◌, ◌&&◌, ◌||◌, if◌then◌else◌, Bool, true, false,
  All, inl, inr, Bool-cases, ap, ◌∙◌,
}
use neon_tests.Prelude.Text.{Text}

-- `str.isspace()` of a character.
unfoldable pub is_space : ℕ → Bool
is_space c =
    (leb 9 c && leb c 13)
    || (leb 28 c && leb c 32)
    || c == 0x85
    || c == 0xA0
    || c == 0x1680
    || (leb 0x2000 c && leb c 0x200A)
    || c == 0x2028
    || c == 0x2029
    || c == 0x202F
    || c == 0x205F
    || c == 0x3000

abbrev pub flush : Text → List Text → List Text
flush [] ws = ws
flush (c ∷ cs) ws = (c ∷ cs) ∷ ws

-- The words, given what was read of the first one.
unfoldable pub split_from : Text → Text → List Text
split_from word [] = flush word []
split_from word (c ∷ cs) =
    let next = split_from [] cs in
    let longer = split_from (word ++ c ∷ []) cs in if is_space c then flush word next else longer

unfoldable pub split : Text → List Text
unfolding split_from
split text = split_from [] text

-- A text without white space.
abbrev pub IsWord : Text → Type 0
IsWord t = any is_space t ≡ false

IsWord-snoc : (t : Text) (c : ℕ) → IsWord t → is_space c ≡ false → IsWord (t ++ c ∷ [])
IsWord-snoc [] c h e = rw e refl
IsWord-snoc (x ∷ xs) c h e = elim (Bool-cases (is_space x)) [
  | inl s ↦ absurd (clash (is_space x) (any is_space xs) s h)
  | inr n ↦ rw n (IsWord-snoc xs c (rest (is_space x) (any is_space xs) n h) e)
]
  where
    clash : (a b : Bool) → a ≡ true → (a || b) ≡ false → ⊥
    clash true b x y = cc
    clash false b x y = cc

    rest : (a b : Bool) → a ≡ false → (a || b) ≡ false → b ≡ false
    rest true b x y = cc
    rest false b x y = y

flush-IsWord : (t : Text) (ws : List Text) → IsWord t → All IsWord ws → All IsWord (flush t ws)
flush-IsWord [] ws h hs = hs
flush-IsWord (c ∷ cs) ws h hs = (h, hs)

split_from-IsWord : (t text : Text) → IsWord t → All IsWord (split_from t text)
unfolding split_from
split_from-IsWord t [] h = flush-IsWord t [] h tt
split_from-IsWord t (c ∷ cs) h = elim (Bool-cases (is_space c)) [
  | inl s ↦ rw s (flush-IsWord t (split_from [] cs) h (split_from-IsWord [] cs refl))
  | inr n ↦ rw n (split_from-IsWord (t ++ c ∷ []) cs (IsWord-snoc t c h n))
]

pub split-IsWord : (text : Text) → All IsWord (split text)
unfolding split
split-IsWord text = split_from-IsWord [] text refl

flush-append : (t : Text) (ws vs : List Text) → flush t (ws ++ vs) ≡ flush t ws ++ vs
flush-append [] ws vs = refl
flush-append (c ∷ cs) ws vs = refl

split_from-blank : (t a b : Text) → split_from t (a ++ 32 ∷ b) ≡ split_from t a ++ split_from [] b
unfolding split_from is_space
split_from-blank t [] b = flush-append t [] (split_from [] b)
split_from-blank t (c ∷ cs) b = elim (Bool-cases (is_space c)) [
  | inl s ↦ rw s (
      ap (flush t) (split_from-blank [] cs b) ∙ flush-append t (split_from [] cs) (split_from [] b))
  | inr n ↦ rw n (split_from-blank (t ++ c ∷ []) cs b)
]

-- A blank parts two texts.
pub split-blank : (a b : Text) → split (a ++ 32 ∷ b) ≡ split a ++ split b
unfolding split
split-blank a b = split_from-blank [] a b

-- A word that has begun is the first of the words.
pub split_from-begun :
    (c : ℕ) (t text : Text)
    → (w : Text) × (ws : List Text) × (split_from (c ∷ t) text ≡ (c ∷ w) ∷ ws)
unfolding split_from
split_from-begun c t [] = (t, [], refl)
split_from-begun c t (d ∷ ds) = elim (Bool-cases (is_space d)) [
  | inl s ↦ (t, split_from [] ds, rw s refl)
  | inr n ↦ let (w, ws, e) = split_from-begun c (t ++ d ∷ []) ds in (w, ws, rw n e)
]

-- A text that begins with a quote has a first word that does.
pub split-quote :
    (text : Text) → (w : Text) × (ws : List Text) × (split (34 ∷ text) ≡ (34 ∷ w) ∷ ws)
unfolding split split_from is_space
split-quote text = split_from-begun 34 [] text
