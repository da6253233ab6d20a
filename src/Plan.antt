-- ===== src/Plan.antt =====
-- src/tab_conductor/plan_parser.py from `parse_plan_dict` on: the validation of a loaded plan. An
-- exception is a constructor of `Error` with the values that its message names. `overflow_error` is
-- Python's OverflowError of `int(inf)`, which no handler of the module catches; all others are
-- PlanParseError. The path of the source file, which only decorates messages, is left out.
pub mod WellFormed
pub mod Accepted
pub mod Overflow
pub mod Load
pub mod Tests
use tab_conductor.Prelude.{
  ℕ, ◌+◌, String, ◌≡◌, refl, Bool, true, false, not, ◌&&◌, Option, none, some, List, [], ◌∷◌, map,
  contains, if◌then◌else◌,
}
use tab_conductor.Prelude.Int.{ℤ, pos, leb_ℤ}
use tab_conductor.Prelude.Call.{Call, returns, raises, ◌>>=◌, ◌>>◌, require}
use tab_conductor.Dict.{Dict, insert}
use tab_conductor.Value.{
  Float, ratio, infinity, minus_infinity, nan, Value, null, bool, int, float, str, list, dict,
  other, Items, nil, cons, Fields, end, field, get, without, set_default,
}
use tab_conductor.Value.Text.{strip, is_empty}
use tab_conductor.Value.Number.{IntError, overflow, to_int}
use tab_conductor.Dag.{Adjacency, Outcome, finished, cycle, unknown, key_error, out_of_fuel}
use tab_conductor.Dag

pub data Error : Type 0 where
  not_mapping no_tasks tasks_not_list tasks_empty : Error
  task_not_mapping missing_id bad_id : ℕ → Error
  duplicate_id missing_prompt bad_prompt bad_kind : String → Error
  bad_priority bad_max_retries bad_depends_on bad_dependency : String → Error
  priority_range max_retries_range : String → ℤ → Error
  unknown_dependency : String → String → Error
  dependency_cycle : List String → String → Error
  overflow_error : Error
  -- what the depth-first search never ends in, see Dag/Decision.antt
  search_fault : Error

-- a normalised task; `extra` holds the keys that the parser does not know
pub record Task : Type 0 where
  pub extra : Fields
  pub id : String
  pub prompt : String
  pub kind : String
  pub priority : ℤ
  pub max_retries : ℤ
  pub depends_on : List String

pub record ParsedPlan : Type 0 where
  pub tasks : List Task
  pub metadata : Fields

abbrev pub priority_min : ℤ
priority_min = pos 0

abbrev pub priority_max : ℤ
priority_max = pos 9

abbrev pub max_retries_min : ℤ
max_retries_min = pos 0

abbrev pub max_retries_max : ℤ
max_retries_max = pos 10

-- `except (TypeError, ValueError)` around int(value), which raises `bad`
pub converted : Error → Call IntError ℤ → Call Error ℤ
converted bad (returns n) = returns n
converted bad (raises overflow) = raises overflow_error
converted bad (raises _) = raises bad

pub int_or : Error → Value → Call Error ℤ
unfolding converted
int_or bad v = converted bad (to_int v)

-- the stripped text of a value that must be a text with more than spaces
pub nonblank : Error → Value → Call Error String
nonblank bad (str s) = do require (not (is_empty (strip s))) bad; returns (strip s)
nonblank bad _ = raises bad

pub required : Error → Option Value → Call Error Value
required missing none = raises missing
required missing (some null) = raises missing
required missing (some v) = returns v

abbrev pub get_or : Value → Option Value → Value
get_or default none = default
get_or default (some v) = v

pub text_or : Error → Value → Call Error String
text_or bad (str s) = returns s
text_or bad _ = raises bad

pub dependencies : Error → Items → Call Error (List String)
dependencies bad nil = returns []
dependencies bad (cons v vs) = do d ← nonblank bad v; ds ← dependencies bad vs; returns (d ∷ ds)

pub items_or : Error → Value → Call Error Items
items_or bad (list vs) = returns vs
items_or bad _ = raises bad

abbrev pub task_keys : List String
task_keys = "id" ∷ "prompt" ∷ "kind" ∷ "priority" ∷ "max_retries" ∷ "depends_on" ∷ []

pub validate_task : Fields → ℕ → List String → Call Error Task
validate_task raw idx seen_ids = do
  raw_id ← required (missing_id idx) (get "id" raw)
  id ← nonblank (bad_id idx) raw_id
  require (not (contains id seen_ids)) (duplicate_id id)
  raw_prompt ← required (missing_prompt id) (get "prompt" raw)
  prompt ← nonblank (bad_prompt id) raw_prompt
  kind ← text_or (bad_kind id) (get_or (str "general") (get "kind" raw))
  priority ← int_or (bad_priority id) (get_or (int (pos 5)) (get "priority" raw))
  require (leb_ℤ priority_min priority && leb_ℤ priority priority_max) (priority_range id priority)
  max_retries ← int_or (bad_max_retries id) (get_or (int (pos 2)) (get "max_retries" raw))
  require (leb_ℤ max_retries_min max_retries && leb_ℤ max_retries max_retries_max)
      (max_retries_range id max_retries)
  raw_deps ← items_or (bad_depends_on id) (get_or (list nil) (get "depends_on" raw))
  deps ← dependencies (bad_dependency id) raw_deps
  returns (record {
    extra = without task_keys raw;
    id = id;
    prompt = prompt;
    kind = kind;
    priority = priority;
    max_retries = max_retries;
    depends_on = deps;
  })

pub fields_or : Error → Value → Call Error Fields
fields_or bad (dict fs) = returns fs
fields_or bad _ = raises bad

-- the loop over `enumerate(raw_tasks)`
pub validate_tasks : ℕ → List String → Items → Call Error (List Task)
validate_tasks idx seen_ids nil = returns []
validate_tasks idx seen_ids (cons v vs) = do
  raw ← fields_or (task_not_mapping idx) v
  task ← validate_task raw idx seen_ids
  tasks ← validate_tasks (idx + 1) (task.id ∷ seen_ids) vs
  returns (task ∷ tasks)

abbrev pub ids : List Task → List String
ids = map (λ (t : Task). t.id)

pub check_dependencies : List String → String → List String → Call Error (Unit {0})
check_dependencies seen_ids id [] = returns tt
check_dependencies seen_ids id (dep ∷ deps) = do
  require (contains dep seen_ids) (unknown_dependency id dep)
  check_dependencies seen_ids id deps

pub check_references : List String → List Task → Call Error (Unit {0})
check_references seen_ids [] = returns tt
check_references seen_ids (task ∷ tasks) = do
  check_dependencies seen_ids task.id task.depends_on
  check_references seen_ids tasks

-- adj = {t["id"]: t["depends_on"] for t in tasks}
unfoldable pub adjacency_from : Adjacency → List Task → Adjacency
adjacency_from adj [] = adj
adjacency_from adj (task ∷ tasks) = adjacency_from (insert task.id task.depends_on adj) tasks

abbrev pub adjacency : List Task → Adjacency
adjacency = adjacency_from []

abbrev pub verdict : Outcome → Call Error (Unit {0})
verdict (finished s) = returns tt
verdict (cycle path dep) = raises (dependency_cycle path dep)
verdict _ = raises search_fault

pub check_dag_cycles : List Task → Call Error (Unit {0})
check_dag_cycles tasks = verdict (Dag.check_dag_cycles false (adjacency tasks))

pub nonempty_items : Items → Call Error Items
nonempty_items nil = raises tasks_empty
nonempty_items (cons v vs) = returns (cons v vs)

abbrev pub default_metadata : Fields → Fields
default_metadata fs =
    set_default "max_parallel" (int (pos 4))
      (set_default "description" (str "") (set_default "name" (str "") fs))

pub parse_plan_dict : Value → Call Error ParsedPlan
parse_plan_dict top = do
  fs ← fields_or not_mapping top
  raw_tasks ← required no_tasks (get "tasks" fs)
  items ← items_or tasks_not_list raw_tasks
  items ← nonempty_items items
  tasks ← validate_tasks 0 [] items
  check_references (ids tasks) tasks
  check_dag_cycles tasks
  returns (record { tasks = tasks; metadata = default_metadata (without ("tasks" ∷ []) fs) })
