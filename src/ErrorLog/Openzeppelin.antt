-- ===== src/ErrorLog/Openzeppelin.antt =====
-- `parse_openzeppelin_results` and `analyze_openzeppelin_results` of clickfile.py, the latter below
-- its decorator. Of the digits that `\d` matches, the ASCII ones are modelled.
use neon_tests.Prelude.{
  ℕ, zero, suc, ◌+◌, ◌-◌, ◌*◌, ◌≡◌, refl, ◌∙◌, ap, [], ◌∷◌, List, Option, none, some, ltb, ◌==◌,
  ◌||◌, if◌then◌else◌, Bool, true, false, length, length-append, replicate,
}
use neon_tests.Prelude.Text.{is_digit, Text, codes, starts_with}
use neon_tests.Py.{Result, ok, err, click_exception}
use neon_tests.ErrorLog.{Log, LogFile, oz, names_of, read, has_logs, add_failures}
use neon_tests.ErrorLog.Updates.{add_failures-reads}

pub record TestReport : Type 0 where
  pub passing : ℕ
  pub pending : ℕ
  pub failing : ℕ

-- `test_report[word] += count`, for the word that the text begins with, and whether it is one of
-- the three.
pub add_count : ℕ → Text → TestReport → TestReport × Bool
add_count n text r =
    if starts_with text (codes "passing")
    then (record { passing = r.passing + n; pending = r.pending; failing = r.failing }, true)
    else if starts_with text (codes "pending")
    then (record { passing = r.passing; pending = r.pending + n; failing = r.failing }, true)
    else if starts_with text (codes "failing")
    then (record { passing = r.passing; pending = r.pending; failing = r.failing + n }, true)
    else (r, false)

-- The matches of `(\d+) (passing|pending|failing)`: the number is that of the digits just read, and
-- the last component says whether there was a match.
pub scan : Option ℕ → Text → TestReport × Bool → TestReport × Bool
unfolding add_count
scan number [] found = found
scan none (c ∷ cs) found = scan (if is_digit c then some (c - 48) else none) cs found
scan (some n) (c ∷ cs) (r, seen) =
    let (r', here) = add_count n cs r in
    let space = scan none cs (r', seen || here) in
    let more = scan (if is_digit c then some (10 * n + (c - 48)) else none) cs (r, seen) in
    if c == 32 then space else more

abbrev pub no_tests : TestReport
no_tests = record { passing = 0; pending = 0; failing = 0 }

-- The files with their paths; the second component are those without a result.
pub parse_files : List (Text × Text) → TestReport → TestReport × List Text
unfolding scan
parse_files [] r = (r, [])
parse_files ((path, rep) ∷ files) r =
    let (r', found) = scan none rep (r, false) in
    let (r'', skipped) = parse_files files r' in (r'', if found then skipped else path ∷ skipped)

unfoldable pub parse_openzeppelin_results : List (Text × Text) → TestReport × List Text
unfolding parse_files
parse_openzeppelin_results files = parse_files files no_tests

-- The number of tests of which versions 3 and 2 let some fail.
unfoldable pub threshold : Text → Option ℕ
threshold version =
    if starts_with version (codes "3")
    then some 1350
    else if starts_with version (codes "2")
    then some 2293
    else none

-- Whether the branch for the version raises.
unfoldable pub is_failed : Option ℕ → TestReport → Bool
is_failed (some t) r = ltb r.passing t
is_failed none r = ltb 0 r.failing || r.passing == 0

module _ (dump : Log → Text) (load : Text → Result Log) where
  abbrev pub then_raise : LogFile × Result Log → LogFile × Result (Unit {0})
  then_raise (file, ok log) = (file, err click_exception)
  then_raise (file, err e) = (file, err e)

  pub analyze : Text → TestReport → LogFile → LogFile × Result (Unit {0})
  unfolding threshold is_failed add_failures
  analyze version r file =
      if is_failed (threshold version) r
      then then_raise (add_failures dump load oz (replicate r.failing []) file)
      else (file, ok tt)

  pub analyze_openzeppelin_results :
      Text → List (Text × Text) → LogFile → LogFile × Result (Unit {0})
  unfolding analyze parse_openzeppelin_results
  analyze_openzeppelin_results version files file =
      analyze version (parse_openzeppelin_results files).0 file

length-replicate {ℓ} : {A : Type ℓ} (n : ℕ) (a : A) → length (replicate n a) ≡ n
length-replicate zero a = refl
length-replicate (suc n) a = ap (λ (m : ℕ). suc m) (length-replicate n a)

module _ (dump : Log → Text) (load : Text → Result Log)
    (load-dump : (log : Log) → load (dump log) ≡ ok log) where
  then_raise-ok :
      (s : LogFile × Result Log) (log : Log)
      → s.1 ≡ ok log
      → then_raise dump load s ≡ (s.0, err click_exception)
  then_raise-ok (file, ok l) log e = refl
  then_raise-ok (file, err x) log e = cc

  -- With a codec that reads what it writes and a log that can be read, if the results fail, the
  -- command raises, there are logs then, and the group `oz` has as many failures more as tests
  -- failed, which may be none.
  pub analyze-fails :
      (version : Text) (files : List (Text × Text)) (file : LogFile) (log : Log)
      → read load file ≡ ok log
      → is_failed (threshold version) (parse_openzeppelin_results files).0 ≡ true
      → (file' : LogFile) × (log' : Log) × (analyze_openzeppelin_results dump load version files
            file
          ≡ (file', err click_exception))
        × (read load file' ≡ ok log')
        × (has_logs load file' ≡ ok true)
        × (length (names_of oz log'.failures)
            ≡ length (names_of oz log.failures) + (parse_openzeppelin_results files).0.failing)
  unfolding analyze_openzeppelin_results
  analyze-fails version files file log e f =
      let r = (parse_openzeppelin_results files).0 in
      let names = replicate r.failing [] in
      let (log', result, back, failures, same, comments, logs) =
        add_failures-reads dump load load-dump oz oz names file log e in
      (
        (add_failures dump load oz names file).0,
        log',
        rw f (then_raise-ok (add_failures dump load oz names file) log' result),
        back,
        logs,
        ap length failures
            ∙ length-append (names_of oz log.failures) names
            ∙ ap (λ n. length (names_of oz log.failures) + n) (length-replicate r.failing []),
      )
