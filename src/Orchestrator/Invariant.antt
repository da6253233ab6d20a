-- ===== src/Orchestrator/Invariant.antt =====
-- What holds of an orchestrator between the steps of its loop.
use tab_conductor.Prelude.{
  ℕ, String, ◌≡◌, ◌≢◌, true, Option, none, some, List, arith, ◌==◌, eq_iff, contains, if◌then◌else◌,
}
use tab_conductor.Prelude.Int.{◌≤ℤ◌}
use tab_conductor.Dict.{
  Dict, lookup, insert, lookup-insert, HasDistinctKeys, HasDistinctKeys-insert,
}
use tab_conductor.Orchestrator.State.{TaskStatus, TaskRecord, Handle, Orchestrator, Effect}

abbrev pub status_of_record : Option TaskRecord → Option TaskStatus
status_of_record none = none
status_of_record (some t) = some t.status

abbrev pub task_of_handle : Option Handle → Option String
task_of_handle none = none
task_of_handle (some h) = some h.task_id

-- the status of the task `k`, and the task of the worker `w`
abbrev pub status_at : Dict TaskRecord → String → Option TaskStatus
status_at d k = status_of_record (lookup k d)

abbrev pub task_at : Dict Handle → String → Option String
task_at d w = task_of_handle (lookup w d)

pub record Inv (o : Orchestrator) : Type 0 where
  pub distinct : HasDistinctKeys o.tasks
  pub keyed : (k : String) (t : TaskRecord) → lookup k o.tasks ≡ some t → t.id ≡ k
  -- the map of the tasks to their workers and the handles of the workers agree
  pub held :
      (k w : String) → task_at o.active_handles w ≡ some k → lookup k o.task_worker_map ≡ some w
  pub holder :
      (k w : String) → lookup k o.task_worker_map ≡ some w → task_at o.active_handles w ≡ some k
  -- the tasks with a worker are those that are running
  pub working :
      (k w : String)
      → lookup k o.task_worker_map ≡ some w
      → status_at o.tasks k ≡ some TaskStatus.running
  pub assigned :
      (k : String)
      → status_at o.tasks k ≡ some TaskStatus.running
      → lookup k o.task_worker_map ≢ none
  -- a task runs only after its dependencies
  pub supplied :
      (k dep : String) (t : TaskRecord)
      → lookup k o.tasks ≡ some t
      → t.status ≡ TaskStatus.running
      → contains dep t.depends_on ≡ true
      → status_at o.tasks dep ≡ some TaskStatus.done
  pub bounded :
      (k : String) (t : TaskRecord) → lookup k o.tasks ≡ some t → t.retries ≤ℤ t.max_retries
  pub reported : (k : String) → status_at o.tasks k ≡ some TaskStatus.terminal → o.exit_code ≢ 0
  pub halted : o.halt_event ≡ true → o.exit_code ≢ 0

-- `o'` is `o` with a new record for the task `k`, which has no worker any more
pub record Released (k : String) (t' : TaskRecord) (o o' : Orchestrator) : Type 0 where
  pub tasks : o'.tasks ≡ insert k t' o.tasks
  pub map :
      (j : String)
      → lookup j o'.task_worker_map ≡ (if k == j then none else lookup j o.task_worker_map)
  pub handles :
      (w : String)
      → task_at o'.active_handles w ≡ elim (task_at o.active_handles w) [
        | none ↦ none
        | some j ↦ if k == j then none else some j
      ]
  pub key : t'.id ≡ k
  pub idle : t'.status ≢ TaskStatus.running
  pub fits : t'.retries ≤ℤ t'.max_retries
  pub not_done : status_at o.tasks k ≢ some TaskStatus.done
  pub code : t'.status ≡ TaskStatus.terminal → o'.exit_code ≢ 0
  pub halt : o'.halt_event ≡ o.halt_event
  pub kept : o.exit_code ≢ 0 → o'.exit_code ≢ 0

module _ (k : String) (t' : TaskRecord) (o o' : Orchestrator) (r : Released k t' o o')
    (i : Inv o) where
  at_k : (j : String) → lookup j o'.tasks ≡ (if k == j then some t' else lookup j o.tasks)
  at_k j = rw r.tasks (lookup-insert k j t' o.tasks)

  pub Inv-Released : Inv o'
  Inv-Released = record {
    distinct = rw r.tasks (HasDistinctKeys-insert k t' o.tasks i.distinct);
    keyed = λ j t h. ground (arith, at_k j, eq_iff k j, i.keyed j t, r.key);
    held = λ j w h. ground (arith, r.handles w, r.map j, i.held j w);
    holder = λ j w h. ground (arith, r.handles w, r.map j, i.holder j w);
    working = λ j w h. ground (arith, at_k j, r.map j, i.working j w);
    assigned = λ j h e. ground (arith, at_k j, r.map j, i.assigned j, r.idle, eq_iff k j);
    supplied = λ j dep t h run c.
        ground (
          arith,
          at_k j,
          at_k dep,
          i.supplied j dep t,
          r.idle,
          r.not_done,
          eq_iff k j,
          eq_iff k dep,
        );
    bounded = λ j t h. ground (arith, at_k j, i.bounded j t, r.fits);
    reported = λ j h e. ground (arith, at_k j, i.reported j, r.code, r.kept);
    halted = λ h. r.kept (i.halted (cc (r.halt, h)));
  }

-- What the orchestrator has sent out does not matter to the invariant.
pub Inv-effects : (es : List Effect) {o : Orchestrator} → Inv o → Inv (record o { effects = es })
Inv-effects es i = record {
  distinct = i.distinct;
  keyed = i.keyed;
  held = i.held;
  holder = i.holder;
  working = i.working;
  assigned = i.assigned;
  supplied = i.supplied;
  bounded = i.bounded;
  reported = i.reported;
  halted = i.halted;
}

-- A signal sets the halt flag and a code that is not 0.
pub Inv-halt :
    (code : ℕ) {o : Orchestrator}
    → code ≢ 0
    → Inv o
    → Inv (record o { exit_code = code; halt_event = true })
Inv-halt code nonzero i = record {
  distinct = i.distinct;
  keyed = i.keyed;
  held = i.held;
  holder = i.holder;
  working = i.working;
  assigned = i.assigned;
  supplied = i.supplied;
  bounded = i.bounded;
  reported = λ k h. nonzero;
  halted = λ h. nonzero;
}
