-- ===== src/Cli/Cases.antt =====
-- What becomes of a pattern for the test cases in the arguments of pytest.
use neon_tests.Prelude.{
  arith, true-ne-false, ◌≡◌, refl, subst, sym, ◌∙◌, ap, [], ◌∷◌, List, Option, none, some, any,
  append_assoc, if◌then◌else◌, ◌++◌, Bool, true, false, All, drop, inl, inr, Bool-cases,
}
use neon_tests.Prelude.Text.{Text, codes, text_eq, text_eq_iff}
use neon_tests.Py.{ok, >>=-eq-ok, >>-eq-ok, ok_injective}
use neon_tests.Cli.Words.{
  is_space, split_from, split, IsWord, split-IsWord, split-blank, split-quote,
}
use neon_tests.Cli.Run.{
  RunOptions, RunAction, pytest, openzeppelin, network_of, group_command, check_tracer,
  full_command, run_with, run, with_option, quoted, has_blank, shown, group_name,
}

abbrev pub holds : Text → List Text → Bool
holds t ws = any (λ w. text_eq w t) ws

no_holds : (t : Text) (ws : List Text) → any is_space t ≡ true → All IsWord ws → holds t ws ≡ false
no_holds t [] h hs = refl
no_holds t (w ∷ ws) h (k, ks) = elim (Bool-cases (text_eq w t)) [
  | inl e ↦ absurd (true-ne-false (sym h ∙ ap (any is_space) (sym ((text_eq_iff w t).0 e)) ∙ k))
  | inr e ↦ rw e (no_holds t ws h ks)
]

drop_one-All : (ws : List Text) → All IsWord ws → All IsWord (drop 1 ws)
drop_one-All [] h = tt
drop_one-All (w ∷ ws) (h, hs) = hs

-- A text that goes on behind another one after a blank.
abbrev GoesOn : Text → Text → Type 0
GoesOn a t = (r : Text) × (t ≡ a ++ 32 ∷ r)

GoesOn-append : (a t s : Text) → GoesOn a t → GoesOn a (t ++ s)
GoesOn-append a t s (r, e) = (r ++ s, ap (λ x. x ++ s) e ∙ append_assoc a (32 ∷ r) s)

GoesOn-if : (b : Bool) (a t s : Text) → GoesOn a t → GoesOn a (if b then t ++ s else t)
GoesOn-if true a t s h = GoesOn-append a t s h
GoesOn-if false a t s h = h

GoesOn-option :
    (a t : Text) (o : Option Text) (f : Text → Text) → GoesOn a t → GoesOn a (with_option t o f)
GoesOn-option a t none f h = h
GoesOn-option a t (some []) f h = h
GoesOn-option a t (some (c ∷ cs)) f h = GoesOn-append a t (f (c ∷ cs)) h

-- The marker's option, if there is one, and what stands behind it.
GoesOn-either :
    (b : Bool) (a x y s : Text) → GoesOn a ((a ++ (if b then 32 ∷ x else 32 ∷ y)) ++ 32 ∷ s)
GoesOn-either true a x y s = (x ++ 32 ∷ s, append_assoc a (32 ∷ x) (32 ∷ s))
GoesOn-either false a x y s = (y ++ 32 ∷ s, append_assoc a (32 ∷ y) (32 ∷ s))

GoesOn-marker :
    (a s : Text) (o : Option Text) → GoesOn a (with_option a o (quoted (codes " -m ")) ++ 32 ∷ s)
GoesOn-marker a s none = (s, refl)
GoesOn-marker a s (some []) = (s, refl)
GoesOn-marker a s (some (c ∷ cs)) = GoesOn-either (has_blank (c ∷ cs)) a _ _ s

-- The pattern in quotes.
abbrev pub in_quotes : Text → Text
in_quotes t = 34 ∷ t ++ 34 ∷ []

with_option-quoted :
    (command t : Text)
    → has_blank t ≡ true
    → with_option command (some t) (quoted (codes " -vk "))
      ≡ command ++ 32 ∷ (codes "-vk" ++ 32 ∷ in_quotes t)
with_option-quoted command [] h = cc
with_option-quoted command (c ∷ cs) h = rw h refl

-- What follows the option for the pattern.
abbrev completed : Option Text → RunOptions → Text → Text
completed network o a =
    let c =
      with_option a o.marker (quoted (codes " -m "))
      ++ (codes " -s --network="
          ++ (shown network ++ (codes " --make-report --test-group " ++ group_name o.name))) in
    let d = if o.keep_error_log then c ++ codes " --keep-error-log" else c in
    with_option d (some o.cost_reports_dir) λ dir. codes " --cost_reports_dir " ++ dir

GoesOn-completed :
    (network : Option Text) (o : RunOptions) (a : Text) → GoesOn a (completed network o a)
GoesOn-completed network o a =
    GoesOn-option a _ (some o.cost_reports_dir) _
      (GoesOn-if o.keep_error_log a _ _ (GoesOn-marker a _ o.marker))

full_command-quoted :
    (network : Option Text) (o : RunOptions) (command : Text)
    → has_blank o.case_pattern ≡ true
    → GoesOn
        (command ++ 32 ∷ (codes "-vk" ++ 32 ∷ in_quotes o.case_pattern))
        (full_command network o command)
unfolding full_command
full_command-quoted network o command h =
    let a = with_option command (some o.case_pattern) (quoted (codes " -vk ")) in
    subst (λ x. GoesOn x (completed network o a)) (with_option-quoted command o.case_pattern h)
      (GoesOn-completed network o a)

has_blank-spaces : (t : Text) → has_blank t ≡ true → any is_space t ≡ true
unfolding is_space
has_blank-spaces [] h = cc
has_blank-spaces (c ∷ cs) h = ground (arith, has_blank-spaces cs)

-- The words of the command, of which those of the quoted pattern follow `-vk`.
pub record IsQuoted (o : RunOptions) (command : Text) (args : List Text) : Type 0 where
  pub first : Text
  pub others : List Text
  pub after : List Text
  pub words : split (in_quotes o.case_pattern) ≡ (34 ∷ first) ∷ others
  pub passed : args ≡ drop 1 (split command ++ codes "-vk" ∷ (34 ∷ first) ∷ (others ++ after))

option_word : split (codes "-vk") ≡ codes "-vk" ∷ []
unfolding split split_from is_space
option_word = refl

split_quoted :
    (command q r : Text) (ws : List Text)
    → split q ≡ ws
    → split ((command ++ 32 ∷ (codes "-vk" ++ 32 ∷ q)) ++ 32 ∷ r)
      ≡ split command ++ codes "-vk" ∷ (ws ++ split r)
split_quoted command q r ws e =
    split-blank (command ++ 32 ∷ (codes "-vk" ++ 32 ∷ q)) r
    ∙ ap (λ x. x ++ split r)
        (split-blank command (codes "-vk" ++ 32 ∷ q)
          ∙ ap (λ x. split command ++ x)
              (split-blank (codes "-vk") q ∙ ap (λ x. split (codes "-vk") ++ x) e))
    ∙ ap (λ x. (split command ++ (x ++ ws)) ++ split r) option_word
    ∙ append_assoc (split command) (codes "-vk" ∷ ws) (split r)

full_command-IsQuoted :
    (network : Option Text) (o : RunOptions) (command : Text)
    → has_blank o.case_pattern ≡ true
    → IsQuoted o command (drop 1 (split (full_command network o command)))
full_command-IsQuoted network o command h =
    let (r, e) = full_command-quoted network o command h in
    let (w, ws, q) = split-quote (o.case_pattern ++ 34 ∷ []) in
    record {
      first = w;
      others = ws;
      after = split r;
      words = q;
      passed =
          ap (drop 1)
            (ap split e ∙ split_quoted command (in_quotes o.case_pattern) r ((34 ∷ w) ∷ ws) q);
    }

no_pattern :
    (network : Option Text) (o : RunOptions) (command : Text)
    → has_blank o.case_pattern ≡ true
    → holds o.case_pattern (drop 1 (split (full_command network o command))) ≡ false
no_pattern network o command h =
    no_holds o.case_pattern _ (has_blank-spaces o.case_pattern h)
      (drop_one-All _ (split-IsWord (full_command network o command)))

-- The command of the group of the tests, the words after it, and none of them is the pattern.
pub record IsSplit (password : Bool) (o : RunOptions) (args : List Text) : Type 0 where
  pub command : Text
  pub group : group_command password (network_of o.name o.network) o ≡ ok (some command)
  pub quoted_words : IsQuoted o command args
  pub missing : holds o.case_pattern args ≡ false

pytest_words : RunAction → List Text
pytest_words (pytest ws) = ws
pytest_words (openzeppelin b) = []

run_with-IsSplit :
    (password ready : Bool) (o : RunOptions) (c : Option Text) (args : List Text)
    → has_blank o.case_pattern ≡ true
    → group_command password (network_of o.name o.network) o ≡ ok c
    → run_with ready (network_of o.name o.network) o c ≡ ok (pytest args)
    → IsSplit password o args
unfolding pytest_words
run_with-IsSplit password ready o none args h g e = cc
run_with-IsSplit password ready o (some command) args h g e =
    let network = network_of o.name o.network in
    let (checked, q) = >>-eq-ok (check_tracer ready network o.name) _ (pytest args) e in
    subst (IsSplit password o) (ap pytest_words (ok_injective q)) (record {
      command = command;
      group = g;
      quoted_words = full_command-IsQuoted network o command h;
      missing = no_pattern network o command h;
    })

-- If the pattern for the cases has a blank and pytest is run, then the option `-vk` is followed by the
-- words of the pattern in quotes, one by one: what the option gets is the first of them, which begins
-- with a quote, and none of the arguments is the pattern.
pub run-splits_case :
    (password ready : Bool) (o : RunOptions) (args : List Text)
    → has_blank o.case_pattern ≡ true
    → run password ready o ≡ ok (pytest args)
    → IsSplit password o args
unfolding run
run-splits_case password ready o args h e =
    let (c, g, r) = >>=-eq-ok (group_command password (network_of o.name o.network) o) _ e in
    run_with-IsSplit password ready o c args h g r
