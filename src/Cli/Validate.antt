-- ===== src/Cli/Validate.antt =====
-- How `validate` ends.
use tab_conductor.Prelude.{String, Bool, true, ◌≡◌, ◌⊎◌}
use tab_conductor.Prelude.Call.{Call, raises}
use tab_conductor.Value.{Value}
use tab_conductor.Plan.{overflow_error, parse_plan_dict}
use tab_conductor.Plan.Load.{
  missing, undecodable, text, Loaded, loaded, value_error, recursion_error, Python, PlanFile,
}

module _ (python : Python) where
  -- yaml.safe_load raises an error that is no YAMLError, or gives a plan for which parse_plan_dict raises
  -- OverflowError or goes deeper than the recursion limit
  abbrev pub IsFatalText : Loaded → Type 0
  IsFatalText l =
      (l ≡ value_error)
      ⊎ ((l ≡ recursion_error)
          ⊎ ((v : Value) × (l ≡ loaded v)
              × ((parse_plan_dict v ≡ raises overflow_error) ⊎ (Python.exceeds python v ≡ true))))

  -- click has accepted the path, and the file is gone by then, it is no UTF-8, or its text is fatal
  abbrev pub IsFatal : Bool → PlanFile → Type 0
  IsFatal accepted f =
      (accepted ≡ true)
      × ((f.stat ≡ missing)
          ⊎ ((f.reading ≡ undecodable)
              ⊎ ((s : String) × (f.reading ≡ text s) × IsFatalText (Python.safe_load python s))))
