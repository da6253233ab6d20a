-- ===== src/Orchestrator/Document.antt =====
-- What orchestrator.py writes to state.json: `_init_state`, the mutators of the `_update_state_…` methods
-- and of `_record_stuck_event`, and `_task_to_dict`. A body is the document apart from its version; the
-- fields that are the same in every worker's or task's dictionary are left out (`result`, `cost_usd`,
-- `tokens_in`, `tokens_out` and a worker's `retries` and `last_error`).
use tab_conductor.Prelude.{
  ℕ, String, Bool, true, false, Option, none, some, List, [], ◌∷◌, ◌++◌, ◌==◌, length,
  if◌then◌else◌,
}
use tab_conductor.Prelude.Int.{ℤ}
use tab_conductor.Prelude.Call.{returns}
use tab_conductor.Dict.{Dict}
use tab_conductor.Value.{Value}
use tab_conductor.Cost.Usd.{Money}
use tab_conductor.Store.{Document, File, Luck, as_is, update}
use tab_conductor.Orchestrator.State.{
  TaskStatus, TaskRecord, LastError, RunStatus, WorkerStatus, Effect, set_status, put_task,
  put_worker, set_cost, stuck_event, escalate, interrupt, terminate, Orchestrator,
}

-- _task_to_dict; the times and the error are texts in the file
pub record TaskDict : Type 0 where
  pub id : String
  pub kind : String
  pub prompt : String
  pub status : TaskStatus
  pub priority : ℤ
  pub depends_on : List String
  pub retries : ℤ
  pub max_retries : ℤ
  pub assigned_to : Value
  pub started_at : Option ℕ
  pub ended_at : Option ℕ
  pub last_error : LastError

abbrev pub task_to_dict : TaskRecord → TaskDict
task_to_dict t = record {
  id = t.id;
  kind = t.kind;
  prompt = t.prompt;
  status = t.status;
  priority = t.priority;
  depends_on = t.depends_on;
  retries = t.retries;
  max_retries = t.max_retries;
  assigned_to = t.assigned_to;
  started_at = t.started_at;
  ended_at = t.ended_at;
  last_error = t.last_error;
}

-- worker_dict
pub record WorkerDict : Type 0 where
  pub id : String
  pub status : WorkerStatus
  pub pid : ℕ
  pub started_at : ℕ
  pub heartbeat_ts : ℕ
  pub task_id : String

-- ev_ref, whose kind is always "stuck"
pub record EventRef : Type 0 where
  pub ts : ℕ
  pub worker_id : String

-- the tasks with `d` in place of the first task of its id, or after all others
unfoldable pub upsert_task : TaskDict → List TaskDict → List TaskDict
upsert_task d [] = d ∷ []
upsert_task d (t ∷ ts) = if t.id == d.id then d ∷ ts else t ∷ upsert_task d ts

unfoldable pub upsert_worker : WorkerDict → List WorkerDict → List WorkerDict
upsert_worker d [] = d ∷ []
upsert_worker d (w ∷ ws) =
    if w.id == d.id
    then record w { status = d.status; heartbeat_ts = d.heartbeat_ts } ∷ ws
    else w ∷ upsert_worker d ws

unfoldable pub dicts_of : Dict TaskRecord → List TaskDict
dicts_of [] = []
dicts_of ((k, t) ∷ d) = task_to_dict t ∷ dicts_of d

abbrev pub is_final : RunStatus → Bool
is_final RunStatus.completed = true
is_final RunStatus.failed = true
is_final RunStatus.halted = true
is_final _ = false

module _ (m : Money) where
  pub record Body : Type 0 where
    pub run_id : String
    pub started_at : ℕ
    pub ended_at : Option ℕ
    pub status : RunStatus
    pub cost_usd_total : Money.Amount m
    pub cost_cap_usd_global : Money.Amount m
    pub workers : List WorkerDict
    pub tasks : List TaskDict
    pub events : List EventRef

  -- what the moment of an update gives: the wall clock, and the sum that the cost guard reports
  pub record Stamp : Type 0 where
    pub now : ℕ
    pub total_usd : Money.Amount m

  -- _init_state
  unfoldable pub initial_body : String → ℕ → Money.Amount m → Orchestrator → Body
  initial_body run_id now cap o = record {
    run_id = run_id;
    started_at = now;
    ended_at = none;
    status = RunStatus.initializing;
    cost_usd_total = Money.zero_usd m;
    cost_cap_usd_global = cap;
    workers = [];
    tasks = dicts_of o.tasks;
    events = [];
  }

  -- the mutator of an effect; the calls of a handle write nothing
  unfoldable pub mutate : Stamp → Effect → Body → Body
  mutate s (set_status status) b = record b {
    status = status;
    ended_at = if is_final status then some s.now else b.ended_at;
  }
  mutate s (put_task t) b = record b { tasks = upsert_task (task_to_dict t) b.tasks }
  mutate s (put_worker w k pid status) b = record b {
    workers =
        upsert_worker
          (record {
            id = w;
            status = status;
            pid = pid;
            started_at = s.now;
            heartbeat_ts = s.now;
            task_id = k;
          })
          b.workers;
  }
  mutate s set_cost b = record b { cost_usd_total = s.total_usd }
  mutate s (stuck_event w) b = record b {
    events = b.events ++ record { ts = s.now; worker_id = w } ∷ [];
  }
  mutate s _ b = b

  abbrev pub is_update : Effect → Bool
  is_update (escalate w) = false
  is_update (interrupt w) = false
  is_update (terminate w) = false
  is_update _ = true

  module _ (is_valid : Document Body → Bool) where
    -- a call of the store, whose error is only logged
    unfoldable pub send : Luck → Stamp → Effect → Option (File Body) → Option (File Body)
    send luck s e file =
        if is_update e
        then (update is_valid as_is luck (λ d. returns (record d { body = mutate s e d.body }))
            file).file
        else file

    -- the effects of a run, the latest first; the n-th call meets `luck n` and `stamps n`
    unfoldable pub send_all :
        (ℕ → Luck) → (ℕ → Stamp) → List Effect → Option (File Body) → Option (File Body)
    send_all luck stamps [] file = file
    send_all luck stamps (e ∷ es) file =
        send (luck (length es)) (stamps (length es)) e (send_all luck stamps es file)

  -- the body after all updates
  unfoldable pub replay : (ℕ → Stamp) → List Effect → Body → Body
  replay stamps [] b = b
  replay stamps (e ∷ es) b = mutate (stamps (length es)) e (replay stamps es b)
