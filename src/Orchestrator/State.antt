-- ===== src/Orchestrator/State.antt =====
-- The configuration, the task records and the state of `Orchestrator`, and its `__init__`.
use tab_conductor.Prelude.{
  ℕ, String, Bool, true, false, Option, none, some, List, [], ◌∷◌, ◌==◌, if◌then◌else◌,
}
use tab_conductor.Prelude.Int.{ℤ, pos}
use tab_conductor.Prelude.Call.{Call, returns, raises, ◌>>=◌}
use tab_conductor.Dict.{Dict, insert}
use tab_conductor.Value.{Value, null, str, int, get}
use tab_conductor.Value.Number.{IntError, to_int}
use tab_conductor.Dag.{Adjacency, Outcome, finished, cycle, unknown, key_error, out_of_fuel}
use tab_conductor.Dag
use tab_conductor.Plan
use tab_conductor.Plan.{get_or}

-- `other` is a status that a plan's own `status` key brings in and that the code never assigns.
pub data TaskStatus : Type 0 where
  pending running done failed terminal : TaskStatus
  other : Value → TaskStatus

pub data LastError : Type 0 where
  no_error : LastError
  given : Value → LastError
  spawn_error : String → LastError
  exited_with : ℤ → LastError

-- _TaskRecord. Times are whole nanoseconds: `retry_at` of the monotonic clock, the others of the wall
-- clock. `worker_id` and `result`, which nothing reads, are left out.
pub record TaskRecord : Type 0 where
  pub id : String
  pub kind : String
  pub prompt : String
  pub status : TaskStatus
  pub priority : ℤ
  pub depends_on : List String
  pub retries : ℤ
  pub max_retries : ℤ
  pub assigned_to : Value
  pub started_at : Option ℕ
  pub ended_at : Option ℕ
  pub last_error : LastError
  pub retry_at : ℕ

-- OrchestratorConfig: the fields that steer the loop and make a worker's command. The backoff factor is a fraction.
pub record Config : Type 0 where
  pub max_parallel : ℤ
  pub backoff_numerator : ℕ
  pub backoff_denominator : ℕ
  pub backoff_base : ℕ
  pub poll_max : ℕ
  pub mock_mode : Bool
  pub mock_worker_path : Option String
  -- empty for None as well
  pub worker_command_template : List String
  -- str(cap_usd_per_worker)
  pub cap_text : String
  pub deny_tools_default : Option String
  pub allow_tools_default : Option String

-- a WorkerHandle, as far as the orchestrator reads it
pub record Handle : Type 0 where
  pub task_id : String
  pub pid : ℕ

pub data RunStatus : Type 0 where
  initializing running halting halted completed failed : RunStatus

pub data WorkerStatus : Type 0 where
  running done failed : WorkerStatus

-- What the orchestrator does to the outside: the `_update_state_…` calls, in which a failure of the
-- store is only logged, and the calls of a handle that send signals to a worker.
pub data Effect : Type 0 where
  set_status : RunStatus → Effect
  put_task : TaskRecord → Effect
  put_worker : String → String → ℕ → WorkerStatus → Effect
  set_cost : Effect
  stuck_event : String → Effect
  escalate interrupt terminate : String → Effect

pub record Orchestrator : Type 0 where
  pub config : Config
  pub tasks : Dict TaskRecord
  pub active_handles : Dict Handle
  pub task_worker_map : Dict String
  pub halt_event : Bool
  pub exit_code : ℕ
  -- the latest first
  pub effects : List Effect

pub data OrchestratorError : Type 0 where
  bad_integer : IntError → OrchestratorError
  dag_cycle : List String → String → OrchestratorError
  unknown_task : String → String → OrchestratorError
  no_mock_worker : OrchestratorError
  -- the ValueError of `Popen`, which `_spawn_ready_workers` does not catch
  embedded_null : OrchestratorError
  -- whatever a poll of a worker raises
  poll_failed : OrchestratorError
  -- what the depth-first search never ends in, see Dag/Decision.antt
  search_fault : OrchestratorError

abbrev pub emit : Effect → Orchestrator → Orchestrator
emit e o = record o { effects = e ∷ o.effects }

-- The records are shared objects: a change to one is a change of its entry.
abbrev pub set_task : TaskRecord → Orchestrator → Orchestrator
set_task t o = record o { tasks = insert t.id t o.tasks }

unfoldable pub status_of_text : String → TaskStatus
status_of_text s =
    if s == "pending"
    then TaskStatus.pending
    else if s == "running"
    then TaskStatus.running
    else if s == "done"
    then TaskStatus.done
    else if s == "failed"
    then TaskStatus.failed
    else if s == "terminal"
    then TaskStatus.terminal
    else other (str s)

unfoldable pub status_of : Value → TaskStatus
status_of (str s) = status_of_text s
status_of v = other v

abbrev pub given_error : Option Value → LastError
given_error none = no_error
given_error (some null) = no_error
given_error (some v) = given v

abbrev pub lift_int : Call IntError ℤ → Call OrchestratorError ℤ
lift_int (returns n) = returns n
lift_int (raises e) = raises (bad_integer e)

-- the record of a task that the plan parser normalised; `extra` holds the plan's other keys
unfoldable pub record_of : Plan.Task → Call OrchestratorError TaskRecord
record_of t = do
  retries ← lift_int (to_int (get_or (int (pos 0)) (get "retries" t.extra)))
  returns (record {
    id = t.id;
    kind = t.kind;
    prompt = t.prompt;
    status = status_of (get_or (str "pending") (get "status" t.extra));
    priority = t.priority;
    depends_on = t.depends_on;
    retries = retries;
    max_retries = t.max_retries;
    assigned_to = get_or null (get "assigned_to" t.extra);
    started_at = none;
    ended_at = none;
    last_error = given_error (get "last_error" t.extra);
    retry_at = 0;
  })

unfoldable pub records_of :
    Dict TaskRecord → List Plan.Task → Call OrchestratorError (Dict TaskRecord)
records_of d [] = returns d
records_of d (t ∷ ts) = record_of t >>= λ r. records_of (insert r.id r d) ts

-- the graph that `_check_dag_cycles` walks
unfoldable pub graph : Dict TaskRecord → Adjacency
graph [] = []
graph ((id, t) ∷ d) = (id, t.depends_on) ∷ graph d

abbrev pub dag_verdict : Outcome → Call OrchestratorError (Unit {0})
dag_verdict (finished s) = returns tt
dag_verdict (cycle path dep) = raises (dag_cycle path dep)
dag_verdict (unknown u dep) = raises (unknown_task u dep)
dag_verdict _ = raises search_fault

-- `__init__` up to the check of the graph, with the fields that the loop starts from; the guards and the file,
-- which may raise as well, come in Orchestrator/Create.antt
unfoldable pub new : Config → List Plan.Task → Call OrchestratorError Orchestrator
new config tasks = do
  records ← records_of [] tasks
  _ ← dag_verdict (Dag.check_dag_cycles true (graph records))
  returns (record {
    config = config;
    tasks = records;
    active_handles = [];
    task_worker_map = [];
    halt_event = false;
    exit_code = 0;
    effects = [];
  })
