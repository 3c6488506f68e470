-- ===== src/Results/Version.antt =====
-- The names of branches and tags: `VERSION_BRANCH_TEMPLATE` and `GITHUB_TAG_PATTERN` of
-- clickfile.py, and utils/version.py. Of the digits that `\d` matches, the ASCII ones are modelled.
use neon_tests.Prelude.{
  ℕ, [], ◌∷◌, Option, none, some, ◌==◌, ◌&&◌, ◌||◌, if◌then◌else◌, Bool, true, false,
}
use neon_tests.Prelude.Text.{is_digit, Text}

infixl 5 ◌>>=◌
abbrev ◌>>=◌ : {A B : Type 0} → Option A → (A → Option B) → Option B
none >>= f = none
some a >>= f = f a

-- What stands behind `[vt]`, behind `\d{1,2}`, and behind one given character. No character that
-- may follow the digits in the patterns is a digit, so the greedy match is the only one.
abbrev pub after_letter : Text → Option Text
after_letter [] = none
after_letter (c ∷ cs) = if c == 118 || c == 116 then some cs else none

abbrev pub second_digit : Text → Text
second_digit [] = []
second_digit (c ∷ cs) = if is_digit c then cs else c ∷ cs

abbrev pub after_digits : Text → Option Text
after_digits [] = none
after_digits (c ∷ cs) = if is_digit c then some (second_digit cs) else none

abbrev pub after_char : ℕ → Text → Option Text
after_char k [] = none
after_char k (c ∷ cs) = if c == k then some cs else none

-- `.*` stops at the end of the line.
abbrev pub rest_of_line : Text → Text
rest_of_line [] = []
rest_of_line (c ∷ cs) = if c == 10 then [] else c ∷ rest_of_line cs

-- What stands behind `[vt]{1}\d{1,2}\.\d{1,2}\.`
pub after_version : Text → Option Text
after_version text = do
  a ← after_letter text
  b ← after_digits a
  c ← after_char 46 b
  d ← after_digits c
  after_char 46 d

pub after_branch : Text → Option Text
unfolding after_version
after_branch text = do rest ← after_version text; after_char 120 rest

-- `re.match(VERSION_BRANCH_TEMPLATE, text)[0]`, if there is a match: the first line.
unfoldable pub match_version_branch : Text → Option Text
unfolding after_branch
match_version_branch text = do rest ← after_branch text; some (rest_of_line text)

abbrev pub has_newline : Text → Bool
has_newline [] = false
has_newline (c ∷ cs) = c == 10 || has_newline cs

-- `bool(re.fullmatch(VERSION_BRANCH_TEMPLATE, text))`
unfoldable pub is_version_branch : Text → Bool
unfolding after_branch
is_version_branch text = elim (after_branch text) [
  | none ↦ false
  | some rest ↦ if has_newline rest then false else true
]

pub after_tag : Text → Option Text
unfolding after_version
after_tag text = do rest ← after_version text; after_digits rest

abbrev pub is_end : Text → Bool
is_end [] = true
is_end (c ∷ cs) = false

-- `$` also matches before a newline at the end.
abbrev pub is_last_line : Text → Bool
is_last_line [] = true
is_last_line (c ∷ cs) = c == 10 && is_end cs

-- `re.fullmatch(GITHUB_TAG_PATTERN, text)`
unfoldable pub is_github_tag : Text → Bool
unfolding after_tag
is_github_tag text = elim (after_tag text) [ none ↦ false | some rest ↦ is_end rest ]

-- `GITHUB_TAG_PATTERN.match(text)`
unfoldable pub matches_github_tag : Text → Bool
unfolding after_tag
matches_github_tag text = elim (after_tag text) [ none ↦ false | some rest ↦ is_last_line rest ]

-- `re.match(r"[vt]{1}\d{1,2}\.\d{1,2}.*", text) is not None`
unfoldable pub is_version_tag_start : Text → Bool
is_version_tag_start text =
    elim (do a ← after_letter text; b ← after_digits a; c ← after_char 46 b; after_digits c) [
      | none ↦ false
      | some rest ↦ true
    ]

unfoldable pub remove_heading_chars_till_first_digit : Text → Text
remove_heading_chars_till_first_digit [] = []
remove_heading_chars_till_first_digit (c ∷ cs) =
    if is_digit c then c ∷ cs else remove_heading_chars_till_first_digit cs
