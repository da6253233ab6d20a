-- ===== src/Plan/Tests.antt =====
-- Runs of the plan parser, and instances of the theorems about it.
use tab_conductor.Prelude.{◌≡◌, true, refl, contains, [], ◌∷◌}
use tab_conductor.Prelude.Int.{pos}
use tab_conductor.Dag
use tab_conductor.Dag.{Search, finished}
use tab_conductor.Dict
use tab_conductor.Value
use tab_conductor.Value.{
  Value, str, int, list, dict, float, infinity, Fields, end, field, nil, cons,
}
use tab_conductor.Value.Text
use tab_conductor.Value.Number
use tab_conductor.Prelude.Call.{returns, raises}
use tab_conductor.Plan.{
  overflow_error, Task, ParsedPlan, validate_task, validate_tasks, int_or, nonblank, required,
  text_or, items_or, fields_or, nonempty_items, dependencies, check_references, check_dependencies,
  check_dag_cycles, adjacency, adjacency_from, parse_plan_dict,
}
use tab_conductor.Plan.Accepted.{
  IsWellFormed, parse_plan_dict-IsWellFormed, parse_plan_dict-check_dag_cycles,
}
use tab_conductor.Plan.Overflow.{infinite_priority-overflow}

abbrev lint : Fields
lint =
    field "id" (str " lint ") (field "prompt" (str "Run ruff.") (field "priority" (str "+0_7") end))

abbrev verify : Fields
verify =
    field "id" (str "verify")
      (field "prompt" (str "Run pytest.") (field "depends_on" (list (cons (str "lint") nil)) end))

abbrev pub plan : Value
plan = dict (
    field "name" (str "demo")
      (field "tasks" (list (cons (dict lint) (cons (dict verify) nil))) end))

abbrev lint_task : Task
lint_task = record {
  extra = end;
  id = "lint";
  prompt = "Run ruff.";
  kind = "general";
  priority = pos 7;
  max_retries = pos 2;
  depends_on = [];
}

abbrev pub parsed : ParsedPlan
parsed = record {
  tasks =
      lint_task
      ∷ record {
        extra = end;
        id = "verify";
        prompt = "Run pytest.";
        kind = "general";
        priority = pos 5;
        max_retries = pos 2;
        depends_on = "lint" ∷ [];
      }
      ∷ [];
  metadata =
      field "name" (str "demo")
        (field "description" (str "") (field "max_parallel" (int (pos 4)) end));
}

runs : Unit {0}
unfolding parse_plan_dict validate_tasks validate_task int_or nonblank required text_or items_or
    fields_or nonempty_items dependencies check_references check_dependencies check_dag_cycles
    adjacency_from Value.get Value.without Value.set_default Text.is_space Text.is_empty Text.strip
    Number.to_int contains Dict.insert Dict.lookup Dict.keys Dag.check_dag_cycles
runs = tt

pub parse-plan : parse_plan_dict plan ≡ returns parsed
unfolding runs
parse-plan = refl

parse_plan_dict-IsWellFormed_example : IsWellFormed parsed.tasks
parse_plan_dict-IsWellFormed_example = parse_plan_dict-IsWellFormed plan parsed parse-plan

parse_plan_dict-check_dag_cycles_example :
    (s : Search) × (Dag.check_dag_cycles true (adjacency parsed.tasks) ≡ finished s)
parse_plan_dict-check_dag_cycles_example = parse_plan_dict-check_dag_cycles plan parsed parse-plan

validate-lint : validate_task lint 0 [] ≡ returns lint_task
unfolding runs
validate-lint = refl

infinite_priority-overflow_example :
    validate_task (field "priority" (float infinity) lint) 0 [] ≡ raises overflow_error
infinite_priority-overflow_example = infinite_priority-overflow lint 0 [] lint_task validate-lint
