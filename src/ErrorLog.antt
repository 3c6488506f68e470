-- ===== src/ErrorLog.antt =====
-- utils/error_log.py: the log of failed tests that the commands and the test runs share, a JSON file.
-- A dictionary is an association list, of which the first entry for a key counts. The file lock is
-- not modelled: every operation is one step. What the JSON library writes and reads are parameters.
pub mod Counts
pub mod Updates
pub mod Traceback
pub mod Openzeppelin
mod Codec
mod Tests
use neon_tests.Prelude.{
  ℕ, ◌+◌, [], ◌∷◌, ◌++◌, List, Option, none, some, map, ltb, ◌==◌, if◌then◌else◌, length, Bool,
  true, false, not, ◌||◌,
}
use neon_tests.Prelude.Text.{Text}
use neon_tests.Py.{Result, ok, err, ◌>>=◌, file_not_found}

pub data TestGroup : Type 0 where
  economy basic tracer services oz ui evm compiler_compatibility : TestGroup

abbrev pub group_number : TestGroup → ℕ
group_number economy = 0
group_number basic = 1
group_number tracer = 2
group_number services = 3
group_number oz = 4
group_number ui = 5
group_number evm = 6
group_number compiler_compatibility = 7

-- Equality of the literals.
abbrev pub group_eq : TestGroup → TestGroup → Bool
group_eq a b = group_number a == group_number b

-- A dictionary from groups.
abbrev pub Groups : Type 0 → Type 0
Groups A = List (TestGroup × A)

abbrev pub find : {A : Type 0} → TestGroup → Groups A → Option A
find g [] = none
find g ((k, a) ∷ ds) = if group_eq k g then some a else find g ds

abbrev pub or_else : {A : Type 0} → A → Option A → A
or_else d none = d
or_else d (some a) = a

-- `d[g]` of a `defaultdict(list)`, which stores nothing where the key is there.
abbrev pub names_of : TestGroup → Groups (List Text) → List Text
names_of g ds = or_else [] (find g ds)

-- `d[g].extend(names)`: the key is made where it is missing, even for no names.
pub extend : TestGroup → List Text → Groups (List Text) → Groups (List Text)
extend g names [] = (g, names) ∷ []
extend g names ((k, old) ∷ ds) =
    if group_eq k g then (k, old ++ names) ∷ ds else (k, old) ∷ extend g names ds

pub record Log : Type 0 where
  pub failures : Groups (List Text)
  pub errors : Groups (List Text)
  pub comments : List Text

abbrev pub empty_log : Log
empty_log = record { failures = []; errors = []; comments = [] }

-- Whether the directory is there, and the text of the file if that is.
pub record LogFile : Type 0 where
  pub directory : Bool
  pub content : Option Text

-- An operation on the file.
abbrev pub LogAction : Type 0 → Type 0
LogAction A = LogFile → LogFile × Result A

abbrev pub written : LogFile → Text → LogFile
written file text = record { directory = file.directory; content = some text }

abbrev pub is_nonempty : {A : Type 0} → List A → Bool
is_nonempty [] = false
is_nonempty (x ∷ xs) = true

-- `__create`: an error of the write is a `False`.
module _ (dump : Log → Text) where
  pub create : LogFile → LogFile × Bool
  create file = if file.directory then (written file (dump empty_log), true) else (file, false)

  unfoldable pub clear : LogFile → LogFile × Bool
  unfolding create
  clear file = create file

  -- `__init__`
  unfoldable pub init : LogFile → LogFile
  unfolding create
  init file = elim file.content [ none ↦ (create file).0 | some text ↦ file ]

module _ (load : Text → Result Log) where
  pub read : LogFile → Result Log
  read file = elim file.content [ none ↦ err file_not_found | some text ↦ load text ]

  pub has_logs : LogFile → Result Bool
  unfolding read
  has_logs file = do log ← read file; ok (is_nonempty log.failures || is_nonempty log.errors)

-- `_update`: the file is read, changed and written, and the changed log is the result.
abbrev pub written_back : (Log → Text) → (Log → Log) → LogFile → Result Log → LogFile × Result Log
written_back dump change file (err e) = (file, err e)
written_back dump change file (ok log) = (written file (dump (change log)), ok (change log))

module _ (dump : Log → Text) (load : Text → Result Log) where
  pub update : (Log → Log) → LogAction Log
  unfolding read
  update change file = written_back dump change file (read load file)

  pub add_failures : TestGroup → List Text → LogAction Log
  unfolding update extend
  add_failures g names = update λ log. record {
    failures = extend g names log.failures;
    errors = log.errors;
    comments = log.comments;
  }

  unfoldable pub add_failure : TestGroup → Text → LogAction Log
  unfolding update extend
  add_failure g name = update λ log. record {
    failures = extend g (name ∷ []) log.failures;
    errors = log.errors;
    comments = log.comments;
  }

  unfoldable pub add_error : TestGroup → Text → LogAction Log
  unfolding update extend
  add_error g name = update λ log. record {
    failures = log.failures;
    errors = extend g (name ∷ []) log.errors;
    comments = log.comments;
  }

  pub add_comment : Text → LogAction Log
  unfolding update
  add_comment text = update λ log. record {
    failures = log.failures;
    errors = log.errors;
    comments = log.comments ++ text ∷ [];
  }

-- `{group: len(d[group]) for group in d if len(d[group]) > 0}`; the second argument is what is left
-- of the keys.
pub positive_counts : Groups (List Text) → Groups (List Text) → Groups ℕ
positive_counts all [] = []
positive_counts all ((k, names) ∷ ds) =
    let rest = positive_counts all ds in
    let n = length (names_of k all) in if ltb 0 n then (k, n) ∷ rest else rest

abbrev pub has_key : {A : Type 0} → TestGroup → Groups A → Bool
has_key g [] = false
has_key g ((k, a) ∷ ds) = group_eq k g || has_key g ds

-- The keys of the first dictionary, then those of the second that are new.
pub union_keys : Groups ℕ → Groups ℕ → List TestGroup
union_keys ds [] = map (λ d. d.0) ds
union_keys ds ((k, n) ∷ es) = if has_key k ds then union_keys ds es else union_keys ((k, n) ∷ ds) es

pub summed : Groups ℕ → Groups ℕ → List TestGroup → Groups ℕ
summed ds es [] = []
summed ds es (k ∷ ks) = (k, or_else 0 (find k ds) + or_else 0 (find k es)) ∷ summed ds es ks

pub count_by_group : Log → Groups ℕ
unfolding positive_counts union_keys summed
count_by_group log =
    let failed = positive_counts log.failures log.failures in
    let errored = positive_counts log.errors log.errors in
    summed failed errored (union_keys failed errored)

unfoldable pub get_count_by_group : (Text → Result Log) → LogFile → Result (Groups ℕ)
unfolding count_by_group read
get_count_by_group load file = do log ← read load file; ok (count_by_group log)
