-- ===== src/Reports/Collector.antt =====
-- utils/stats_collector.py: the file of a cost report, and when an action is added to it. The file
-- lock makes an update one step. What the JSON library writes and reads are parameters.
use neon_tests.Prelude.{
  ℕ, [], ◌∷◌, ◌++◌, List, Option, none, some, any, ◌&&◌, ◌||◌, if◌then◌else◌, Bool, false,
}
use neon_tests.Prelude.Text.{Text, codes, text_eq, starts_with}
use neon_tests.Py.{Result, ok, err, file_not_found}

pub record CostReportAction : Type 0 where
  pub name : Text
  pub used_gas : ℕ
  pub gas_price : ℕ
  pub tx : Text

pub record CostReportModel : Type 0 where
  pub name : Text
  pub actions : List CostReportAction

-- A function on the stack: its name, and the marks of the test it stands for.
pub record Frame : Type 0 where
  pub function : Text
  pub marks : List Text

unfoldable pub is_called_from_test_marked_for_collection : List Frame → Bool
unfolding starts_with
is_called_from_test_marked_for_collection [] = false
is_called_from_test_marked_for_collection (f ∷ fs) =
    (starts_with f.function (codes "test_") && any (text_eq (codes "cost_report")) f.marks)
    || is_called_from_test_marked_for_collection fs

module _ (dump : CostReportModel → Text) (load : Text → Result CostReportModel) where
  abbrev pub empty_model : Text → CostReportModel
  empty_model name = record { name = name; actions = [] }

  -- `if not self.report_file.exists(): self.__create()`
  abbrev pub or_created : Text → Option Text → Text
  or_created name none = dump (empty_model name)
  or_created name (some text) = text

  pub read : Option Text → Result CostReportModel
  read none = err file_not_found
  read (some text) = load text

  abbrev pub appended : CostReportAction → Text → Result CostReportModel → Text × Result (Unit {0})
  appended a text (err e) = (text, err e)
  appended a text (ok m) = (dump (record m { actions = m.actions ++ a ∷ [] }), ok tt)

  -- `with collector._update() as report: report.actions.append(action)`: the text of the file.
  unfoldable pub update : Text → CostReportAction → Option Text → Text × Result (Unit {0})
  update name a file = let text = or_created name file in appended a text (load text)

  -- The wrapper after the call of a function, whose receipt gives the action: whether there is a
  -- directory for reports, and the stack.
  pub cost_report_from_receipt :
      (enabled : Bool)
      → List Frame
      → Text
      → CostReportAction
      → Option Text
      → Option Text × Result (Unit {0})
  unfolding is_called_from_test_marked_for_collection update
  cost_report_from_receipt enabled stack name a file =
      if enabled && is_called_from_test_marked_for_collection stack
      then (some (update name a file).0, (update name a file).1)
      else (file, ok tt)
