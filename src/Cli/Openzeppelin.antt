-- ===== src/Cli/Openzeppelin.antt =====
-- The order and the keys of the OpenZeppelin tests, of `run_openzeppelin_tests` in clickfile.py. Of the
-- pool of threads, the start and the end of a test are the steps, in the order in which they happen.
-- A thread takes its keys from the front of a list that the threads share. A test that raises before
-- it gives its keys back is no step.
pub mod Prioritised
pub mod Kept
use neon_tests.Prelude.{
  ℕ, zero, suc, ◌+◌, [], ◌∷◌, ◌++◌, List, Option, none, some, any, not, if◌then◌else◌, Bool, true,
  false, reverse, length, ◌<◌, ◌≡◌,
}
use neon_tests.Prelude.Text.{Text, codes, text_eq, starts_with}
use neon_tests.Prelude.Dict.{lookup, without}
use neon_tests.Py.{Result, ok, err, or_raise, ◌>>=◌, index_error}
use neon_tests.Results.Order.{keep}

abbrev pub priority_names : List Text
priority_names =
    codes "test/token/ERC721/ERC721.test.js"
    ∷ codes "test/token/ERC721/ERC721Enumerable.test.js"
    ∷ codes "test/token/ERC721/extensions/ERC721Wrapper.test.js"
    ∷ []

-- `test.endswith(name)`
abbrev pub ends_with : Text → Text → Bool
ends_with t name = starts_with (reverse t) (reverse name)

abbrev pub is_priority : Text → Bool
is_priority t = any (ends_with t) priority_names

-- The loop over the tests, with those that were put into the two lists.
unfoldable pub sort_tests : List Text → List Text → List Text → List Text × List Text
unfolding starts_with
sort_tests priority other [] = (priority, other)
sort_tests priority other (t ∷ ts) =
    let first = sort_tests (priority ++ t ∷ []) other ts in
    let second = sort_tests priority (other ++ t ∷ []) ts in if is_priority t then first else second

unfoldable pub prioritised_tests : List Text → List Text
unfolding sort_tests
prioritised_tests tests = let (priority, other) = sort_tests [] [] tests in priority ++ other

-- `keys_env`: the keys of each job, from the number of the first on.
unfoldable pub keys_env : {K : Type 0} (prepare : ℕ → K) → ℕ → (jobs : ℕ) → List K
keys_env prepare first zero = []
keys_env prepare first (suc jobs) = prepare first ∷ keys_env prepare (suc first) jobs

-- The keys that are free, and those of the tests that run.
pub record Keys (K : Type 0) : Type 0 where
  pub free : List K
  pub used : List (Text × K)

pub data Step : Type 0 where
  start : Text → Step
  end : Text → Step

-- `keys_env.pop(0)` raises where there are no keys.
abbrev pub started : {K : Type 0} → Text → List (Text × K) → List K → Result (Keys K)
started file used [] = err index_error
started file used (k ∷ ks) = ok (record { free = ks; used = (file, k) ∷ used })

-- Only a test that runs ends.
abbrev pub ended : {K : Type 0} → Text → Keys K → Option K → Keys K
ended file s none = s
ended file s (some k) = record { free = s.free ++ k ∷ []; used = without file s.used }

unfoldable pub run_step : {K : Type 0} → Step → Keys K → Result (Keys K)
run_step (start file) s = started file s.used s.free
run_step (end file) s = ok (ended file s (lookup file s.used))

-- The keys, and the tests that have not begun.
pub record Jobs (K : Type 0) : Type 0 where
  pub keys : Keys K
  pub waiting : List Text

abbrev pub prepared : {K : Type 0} (prepare : ℕ → K) (jobs : ℕ) → List Text → Jobs K
prepared prepare jobs tests = record {
  keys = record { free = keys_env prepare 0 jobs; used = [] };
  waiting = prioritised_tests tests;
}

-- A free thread begins the next test, or one that runs ends.
pub data JobStep (jobs : ℕ) {K : Type 0} : Jobs K → Jobs K → Type 0 where
  begin :
      (keys after : Keys K) (t : Text) (ts : List Text)
      → length keys.used < jobs
      → run_step (start t) keys ≡ ok after
      → JobStep jobs
          (record { keys = keys; waiting = t ∷ ts })
          (record { keys = after; waiting = ts })
  finish :
      (keys after : Keys K) (t : Text) (ts : List Text)
      → run_step (end t) keys ≡ ok after
      → JobStep jobs (record { keys = keys; waiting = ts }) (record { keys = after; waiting = ts })

pub data Reach (jobs : ℕ) {K : Type 0} (s : Jobs K) : Jobs K → Type 0 where
  here : Reach jobs s s
  next : {p q : Jobs K} → Reach jobs s p → JobStep jobs p q → Reach jobs s q
