-- ===== src/ErrorLog/Traceback.antt =====
-- `catch_traceback` of clickfile.py: the decorator of the commands.
use neon_tests.Prelude.{
  zero, suc, ◌≡◌, refl, ◌∙◌, ap, inl, inr, [], ◌∷◌, ◌++◌, List, Option, none, some, if◌then◌else◌,
  Bool, true, false, ◌||◌, Bool-cases,
}
use neon_tests.Prelude.Int.{ℤ, pos, negsuc}
use neon_tests.Prelude.Text.{Text, codes, text_eq}
use neon_tests.Py.{Error, Result, ok, err, index_error}
use neon_tests.ErrorLog.{Log, LogFile, is_nonempty, read, has_logs, add_comment}
use neon_tests.ErrorLog.Updates.{update-reads}

-- The arguments of a `SystemExit`: none, a number first, or something else first.
pub data ExitArgs : Type 0 where
  no_args : ExitArgs
  code : ℤ → ExitArgs
  other_arg : ExitArgs

-- How a command ends. An exception carries `f"{exc.__class__.__name__}({exc})"`; `failed` is an
-- exception of the model's own.
pub data Ending (A : Type 0) : Type 0 where
  returned : A → Ending A
  exited : ExitArgs → Text → Ending A
  raised : Text → Ending A
  failed : Error → Ending A

-- `ERR_MESSAGES.get(func_name)`
pub err_message : Text → Option Text
err_message name =
    if text_eq name (codes "run")
    then some (codes "Unsuccessful tests executing")
    else if text_eq name (codes "requirements")
    then some (codes "Unsuccessful requirements installation")
    else none

abbrev pub message_or : Text → Option Text → Text
message_or text none = text
message_or text (some m) = m

pub error_comment : Text → Text → Text
unfolding err_message
error_comment name text = name ++ (codes ": " ++ message_or text (err_message name))

-- The exception to report, if there is one: `exit_code != 0` for a `SystemExit`.
unfoldable pub reported : {A : Type 0} → Ending A → Option Text
reported (returned a) = none
reported (exited no_args text) = none
reported (exited (code (pos zero)) text) = none
reported (exited (code (pos (suc n))) text) = some text
reported (exited (code (negsuc n)) text) = some text
reported (exited other_arg text) = some text
reported (raised text) = some text
reported (failed e) = none

-- How the decorated command ends: an exit with 0 returns `None`, and one without arguments fails at
-- `e.args[0]`.
pub ending : {A : Type 0} → Ending A → Ending (Option A)
ending (returned a) = returned (some a)
ending (exited no_args text) = failed index_error
ending (exited (code (pos zero)) text) = returned none
ending (exited (code (pos (suc n))) text) = exited (code (pos (suc n))) text
ending (exited (code (negsuc n)) text) = exited (code (negsuc n)) text
ending (exited other_arg text) = exited other_arg text
ending (raised text) = raised text
ending (failed e) = failed e

module _ (dump : Log → Text) (load : Text → Result Log) where
  abbrev pub after_comment :
      {A : Type 0} → Ending (Option A) → LogFile × Result Log → LogFile × Ending (Option A)
  after_comment end (file, ok log) = (file, end)
  after_comment end (file, err e) = (file, failed e)

  -- The `finally` clause, given whether there are logs: a failure of the log itself takes the place
  -- of the exception.
  pub report :
      {A : Type 0}
      → Text
      → Text
      → Ending (Option A)
      → LogFile
      → Result Bool
      → LogFile × Ending (Option A)
  unfolding add_comment error_comment
  report name text end file (ok true) = (file, end)
  report name text end file (ok false) =
      after_comment end (add_comment dump load (error_comment name text) file)
  report name text end file (err e) = (file, failed e)

  pub wrap : {A : Type 0} → Text → Option Text → LogFile × Ending A → LogFile × Ending (Option A)
  unfolding report ending has_logs
  wrap name none (file, end) = (file, ending end)
  wrap name (some text) (file, end) = report name text (ending end) file (has_logs load file)

  pub catch_traceback :
      {A : Type 0} → Text → (LogFile → LogFile × Ending A) → LogFile → LogFile × Ending (Option A)
  unfolding wrap reported
  catch_traceback name func file = wrap name (reported (func file).1) (func file)

nonempty-snoc : {A : Type 0} (xs : List A) (x : A) → is_nonempty (xs ++ x ∷ []) ≡ true
nonempty-snoc [] x = refl
nonempty-snoc (y ∷ ys) x = refl

-- Whether a log tells of a failure at all.
abbrev pub tells : Log → Bool
tells log = is_nonempty log.failures || (is_nonempty log.errors || is_nonempty log.comments)

tells-logs : (a b c : Bool) → (a || b) ≡ true → (a || (b || c)) ≡ true
tells-logs true b c e = refl
tells-logs false true c e = refl
tells-logs false false c e = cc

tells-comment : (a b : Bool) → (a || (b || true)) ≡ true
tells-comment true b = refl
tells-comment false true = refl
tells-comment false false = refl

module _ (dump : Log → Text) (load : Text → Result Log)
    (load-dump : (log : Log) → load (dump log) ≡ ok log) where
  after_comment-ok :
      {A : Type 0} (end : Ending (Option A)) (s : LogFile × Result Log) (log : Log)
      → s.1 ≡ ok log
      → after_comment dump load end s ≡ (s.0, end)
  after_comment-ok end (file, ok l) log e = refl
  after_comment-ok end (file, err x) log e = cc

  has_logs-of :
      (file : LogFile) (log : Log)
      → read load file ≡ ok log
      → has_logs load file ≡ ok (is_nonempty log.failures || is_nonempty log.errors)
  unfolding has_logs
  has_logs-of file log e = rw e refl

  report-tells :
      {A : Type 0} (name text : Text) (end : Ending (Option A)) (file : LogFile) (log : Log)
      → read load file ≡ ok log
      → (file' : LogFile) × (log' : Log) × (report dump load name text end file (has_logs load file)
          ≡ (file', end))
        × (read load file' ≡ ok log')
        × (log'.failures ≡ log.failures)
        × (log'.errors ≡ log.errors)
        × (tells log' ≡ true)
  unfolding report add_comment
  report-tells name text end file log e =
      elim (Bool-cases (is_nonempty log.failures || is_nonempty log.errors)) [
        | inl logs ↦ (
          file,
          log,
          ap (report dump load name text end file) (has_logs-of file log e ∙ ap (λ b. ok b) logs),
          e,
          refl,
          refl,
          tells-logs (is_nonempty log.failures) (is_nonempty log.errors) (is_nonempty log.comments)
              logs,
        )
        | inr none_yet ↦
            let comment : Log → Log = λ l. record {
              failures = l.failures;
              errors = l.errors;
              comments = l.comments ++ error_comment name text ∷ [];
            } in
            let (result, back) = update-reads dump load load-dump comment file log e in
            (
              (add_comment dump load (error_comment name text) file).0,
              comment log,
              ap (report dump load name text end file)
                    (has_logs-of file log e ∙ ap (λ b. ok b) none_yet)
                  ∙ after_comment-ok end (add_comment dump load (error_comment name text) file)
                      (comment log) result,
              back,
              refl,
              refl,
              rw (nonempty-snoc log.comments (error_comment name text))
                  (tells-comment (is_nonempty log.failures) (is_nonempty log.errors)),
            )
      ]

  -- With a codec that reads what it writes, a decorated command that fails and leaves a log that
  -- can be read ends with the exception it raised, and the log then tells of a failure: by the
  -- failures and errors that were there, which are kept, or else by a comment.
  pub catch_traceback-tells :
      {A : Type 0} (name text : Text) (func : LogFile → LogFile × Ending A) (file behind : LogFile)
      (end : Ending A) (log : Log)
      → func file ≡ (behind, end)
      → reported end ≡ some text
      → read load behind ≡ ok log
      → (file' : LogFile) × (log' : Log) × (catch_traceback dump load name func file
          ≡ (file', ending end))
        × (read load file' ≡ ok log')
        × (log'.failures ≡ log.failures)
        × (log'.errors ≡ log.errors)
        × (tells log' ≡ true)
  unfolding catch_traceback
  catch_traceback-tells name text func file behind end log e r h =
      rw (e, r) (report-tells name text (ending end) behind log h)
