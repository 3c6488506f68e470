-- ===== src/Cli/Shell.antt =====
-- The commands of clickfile.py that put shell commands together. What a command of the shell ends with
-- is given; a command of the tool gives the commands that it ran, in order, and its result.
use neon_tests.Prelude.{
  ℕ, zero, suc, [], ◌∷◌, ◌++◌, List, Option, none, some, ◌==◌, if◌then◌else◌, Bool, true, false,
}
use neon_tests.Prelude.Text.{Text, codes}
use neon_tests.Py.{Result, ok, err, plain_exception, system_exit, file_not_found}
use neon_tests.Reports.{decimal}

abbrev pub Ran : Type 0
Ran = List Text × Result (Unit {0})

-- One part after another: an exception of the first is the end.
abbrev pub then_run : Ran → Ran → Ran
then_run (cs, err e) next = (cs, err e)
then_run (cs, ok u) next = (cs ++ next.0, next.1)

-- `except Exception`
abbrev pub caught : Ran → Ran
caught (cs, r) = (cs, ok tt)

abbrev pub nothing_run : Ran
nothing_run = ([], ok tt)

-- An optional parameter that is not empty.
abbrev pub with_given : (Text → Text) → Option Text → Text → Text
with_given flag none command = command
with_given flag (some []) command = command
with_given flag (some (c ∷ cs)) command = command ++ flag (c ∷ cs)

abbrev pub given_or : Text → (Text → Text) → Option Text → Text → Text
given_or default flag none command = command ++ default
given_or default flag (some []) command = command ++ default
given_or default flag (some (c ∷ cs)) command = command ++ flag (c ∷ cs)

-- A time of 0 counts as none.
abbrev pub time_of : Option ℕ → Option Text
time_of none = none
time_of (some zero) = none
time_of (some (suc n)) = some (decimal (suc n))

-- `' '.join(tag)`
abbrev pub joined : List Text → Text
joined [] = []
joined (t ∷ []) = t
joined (t ∷ u ∷ ts) = t ++ 32 ∷ joined (u ∷ ts)

abbrev pub tags_of : List Text → Option Text
tags_of [] = none
tags_of (t ∷ ts) = some (joined (t ∷ ts))

pub data LocustFile : Type 0 where
  proxy synthetic tracerapi : LocustFile

abbrev pub file_name : LocustFile → Text
file_name proxy = codes "proxy"
file_name synthetic = codes "synthetic"
file_name tracerapi = codes "tracerapi"

abbrev pub is_tracerapi : LocustFile → Bool
is_tracerapi tracerapi = true
is_tracerapi _ = false

-- The options of a load test.
pub record LocustOptions : Type 0 where
  pub credentials : Option Text
  pub host : Text
  pub users : ℕ
  pub spawn_rate : ℕ
  pub run_time : Option ℕ
  pub tag : List Text

pub data Dep : Type 0 where
  devel python ui all : Dep

module _ (exit_code : Text → ℕ) where
  -- `subprocess.check_call(command, shell=True)`
  abbrev pub check_call : Text → Ran
  check_call command = (command ∷ [], if exit_code command == 0 then ok tt else err plain_exception)

  -- `subprocess.run`, and `sys.exit` with a code that is not 0.
  abbrev pub run_or_exit : Text → Ran
  run_or_exit command = (command ∷ [], if exit_code command == 0 then ok tt else err system_exit)

  unfoldable pub install_python_requirements : Ran
  install_python_requirements = check_call (
      codes "uv pip install --upgrade -r deploy/requirements/click.txt "
      ++ codes "-r deploy/requirements/prod.txt  -r deploy/requirements/devel.txt")

  -- On Linux, an error of the installation of `xclip` is a warning.
  unfoldable pub install_ui_requirements : (on_linux : Bool) → Ran
  install_ui_requirements on_linux =
      then_run (check_call (codes "uv pip install --upgrade -r deploy/requirements/ui.txt")) (
        then_run
          (if on_linux
            then caught (check_call (codes "apt update && apt install xclip"))
            else nothing_run)
          (check_call (codes "playwright install chromium")))

  pub requirements : (on_linux : Bool) → Dep → Ran
  unfolding install_python_requirements install_ui_requirements
  requirements on_linux devel = install_python_requirements
  requirements on_linux python = install_python_requirements
  requirements on_linux ui = install_ui_requirements on_linux
  requirements on_linux all =
      then_run install_python_requirements (install_ui_requirements on_linux)

  -- `base_path.absolute()` and the path of the file, if that is there.
  module _ (base_path : Text) (file_at : Text → Bool) where
    abbrev pub locust_path : LocustFile → Text
    locust_path file =
        base_path ++ codes "/loadtesting/" ++ file_name file ++ codes "/locustfile.py"

    abbrev pub locust_start : Text → LocustOptions → Text
    locust_start path o =
        codes "locust -f "
        ++ path
        ++ codes " --host="
        ++ o.host
        ++ codes " --users="
        ++ decimal o.users
        ++ codes " --spawn-rate="
        ++ decimal o.spawn_rate

    unfoldable pub locust_command : LocustOptions → Bool → LocustFile → Option Text → Text
    locust_command o web_ui file neon_rpc =
        let default =
          if is_tracerapi file
          then codes " --credentials=" ++ base_path ++ codes "/loadtesting/tracerapi/envs.json"
          else [] in
        let a =
          given_or default (λ c. codes " --credentials=" ++ c) o.credentials
            (locust_start (locust_path file) o) in
        let b = with_given (λ t. codes " --run-time=" ++ t) (time_of o.run_time) a in
        let c =
          if is_tracerapi file then with_given (λ r. codes " --neon-rpc=" ++ r) neon_rpc b else b in
        let d = with_given (λ ts. codes " --tags " ++ ts) (tags_of o.tag) c in
        if web_ui then d else d ++ codes " --headless"

    pub locust_run : LocustOptions → Bool → LocustFile → Option Text → Ran
    unfolding locust_command
    locust_run o web_ui file neon_rpc =
        if file_at (locust_path file)
        then run_or_exit (locust_command o web_ui file neon_rpc)
        else ([], err file_not_found)

    abbrev pub prepare_path : Text
    prepare_path = base_path ++ codes "/loadtesting/tracerapi/prepare_data/locustfile.py"

    unfoldable pub prepare_command : LocustOptions → Text
    prepare_command o =
        let a =
          given_or (codes " --credentials=" ++ base_path ++ codes "/envs.json")
            (λ c. codes " --credentials=" ++ c) o.credentials
            (locust_start prepare_path o ++ codes " --headless") in
        let b =
          given_or (codes " --run-time=120") (λ t. codes " --run-time=" ++ t) (time_of o.run_time)
            a in
        given_or (codes " --tags prepare") (λ ts. codes " --tags " ++ ts) (tags_of o.tag) b

    pub prepare : LocustOptions → Ran
    unfolding prepare_command
    prepare o =
        if file_at prepare_path then run_or_exit (prepare_command o) else ([], err file_not_found)

  pub generate_allure_report : Ran
  generate_allure_report = run_or_exit (codes "allure generate")

  -- The contracts of a repository; an old copy is removed before.
  pub update_contracts_from_git :
      (download_path : Text) (git_url branch : Text) (update_npm : Bool) → Ran
  update_contracts_from_git download_path git_url branch update_npm =
      let clone =
        codes "\n        git clone --branch "
        ++ branch
        ++ 32 ∷ git_url
        ++ 32 ∷ download_path
        ++ codes "\n    " in
      check_call
        (if update_npm then clone ++ codes "\n npm ci --prefix " ++ download_path else clone)

  pub k6_build : Text → Ran
  k6_build tag = then_run (run_or_exit (codes "go install go.k6.io/xk6/cmd/xk6@latest")) (
      run_or_exit (
        codes "xk6 build --with github.com/szkiba/xk6-prometheus --with "
        ++ codes "github.com/neonlabsorg/xk6-ethereum@"
        ++ tag))
