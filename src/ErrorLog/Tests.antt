-- ===== src/ErrorLog/Tests.antt =====
-- The theorems on the log at a concrete file.
use neon_tests.Prelude.{ℕ, ◌+◌, ◌≡◌, refl, [], ◌∷◌, List, some, true, length}
use neon_tests.Prelude.Text.{Text, codes, starts_with}
use neon_tests.Py.{ok, err, click_exception}
use neon_tests.ErrorLog.{
  basic, evm, oz, find, names_of, Log, LogFile, read, has_logs, count_by_group,
}
use neon_tests.ErrorLog.Codec.{dump, load, load-dump}
use neon_tests.ErrorLog.Counts.{find-count_by_group}
use neon_tests.ErrorLog.Traceback.{
  Ending, raised, reported, ending, catch_traceback, tells, catch_traceback-tells,
}
use neon_tests.ErrorLog.Openzeppelin.{
  parse_openzeppelin_results, threshold, is_failed, analyze_openzeppelin_results, analyze-fails,
}

abbrev log : Log
log = record {
  failures = (basic, codes "test_a" ∷ codes "test_b" ∷ []) ∷ (evm, []) ∷ [];
  errors = (basic, codes "test_c" ∷ []) ∷ [];
  comments = [];
}

abbrev quiet : Log
quiet = record { failures = []; errors = []; comments = [] }

abbrev file_of : Log → LogFile
file_of l = record { directory = true; content = some (dump l) }

find-count_by_group_example : find basic (count_by_group log) ≡ some 3
find-count_by_group_example = find-count_by_group log basic

abbrev failing_command : LogFile → LogFile × Ending ℕ
failing_command f = (f, raised (codes "KeyError('x')"))

catch_traceback-tells_example :
    (file' : LogFile) × (log' : Log) × (catch_traceback dump load
        (codes "run")
        failing_command
        (file_of quiet)
      ≡ (file', ending {A = ℕ} (raised (codes "KeyError('x')"))))
    × (read load file' ≡ ok log')
    × (log'.failures ≡ [])
    × (log'.errors ≡ [])
    × (tells log' ≡ true)
unfolding read reported
catch_traceback-tells_example =
    catch_traceback-tells dump load load-dump {A = ℕ} (codes "run") (codes "KeyError('x')")
      failing_command (file_of quiet) (file_of quiet) (raised (codes "KeyError('x')")) quiet refl
      refl (load-dump quiet)

abbrev results : List (Text × Text)
results =
    (codes "a/stdout.log", codes "  10 passing (2s)")
    ∷ (codes "b/stdout.log", codes "3 failing")
    ∷ []

analyze-fails_example :
    (file' : LogFile) × (log' : Log) × (analyze_openzeppelin_results dump load
        (codes "4.7.3")
        results
        (file_of quiet)
      ≡ (file', err click_exception))
    × (read load file' ≡ ok log')
    × (has_logs load file' ≡ ok true)
    × (length (names_of oz log'.failures) ≡ length (names_of oz quiet.failures) + 3)
unfolding read parse_openzeppelin_results threshold is_failed starts_with
analyze-fails_example =
    analyze-fails dump load load-dump (codes "4.7.3") results (file_of quiet) quiet
      (load-dump quiet) refl
