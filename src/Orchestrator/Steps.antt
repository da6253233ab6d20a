-- ===== src/Orchestrator/Steps.antt =====
-- The invariant at the exit of a worker, whether its task is done, retried or given up.
use tab_conductor.Prelude.{
  ℕ, String, ◌≡◌, refl, ◌≢◌, Option, none, some, arith, ◌==◌, eq_iff, if◌then◌else◌, Bool-cases,
  Option-cases, inl, inr, ◌+◌,
}
use tab_conductor.Prelude.Int.{◌≤ℤ◌}
use tab_conductor.Dict.{lookup, remove, lookup-remove}
use tab_conductor.Orchestrator.State.{TaskStatus, TaskRecord, Handle, Orchestrator}
use tab_conductor.Value.{null}
use tab_conductor.Orchestrator.Retry.{maybe_retry_task, backoff, ltb_ℤ, suc_ℤ}
use tab_conductor.Orchestrator.Exit.{
  emit_task, Exit, task_exited, report_exit, close_task, close_worker, process_worker_exit,
  is_success,
}
use tab_conductor.Orchestrator.Invariant.{status_at, task_at, Inv, Inv-Released, Inv-effects}

-- `o'` is `o` without the worker of the task `k`
pub record Freed (k : String) (o o' : Orchestrator) : Type 0 where
  pub tasks : o'.tasks ≡ o.tasks
  pub code : o'.exit_code ≡ o.exit_code
  pub halt : o'.halt_event ≡ o.halt_event
  pub map :
      (j : String)
      → lookup j o'.task_worker_map ≡ (if k == j then none else lookup j o.task_worker_map)
  pub handles :
      (w : String)
      → task_at o'.active_handles w ≡ elim (task_at o.active_handles w) [
        | none ↦ none
        | some j ↦ if k == j then none else some j
      ]

module _ (clock : ℕ) (k : String) (u : TaskRecord) (o o' : Orchestrator) (f : Freed k o o')
    (key : u.id ≡ k) (fits : u.retries ≤ℤ u.max_retries)
    (not_done : status_at o.tasks k ≢ some TaskStatus.done) where
  abbrev again : TaskRecord
  again = record u {
    retries = suc_ℤ u.retries;
    status = TaskStatus.pending;
    assigned_to = null;
    retry_at = clock + backoff o'.config u.retries;
  }

  abbrev given_up : TaskRecord
  given_up = record u { status = TaskStatus.terminal }

  pub retry-Inv : Inv o → Inv (maybe_retry_task clock u o')
  unfolding maybe_retry_task
  retry-Inv i = elim (Bool-cases (ltb_ℤ u.retries u.max_retries)) [
    | inl more ↦ rw more (
        Inv-Released k again o _
          (record {
            tasks = cc (f.tasks, key);
            map = f.map;
            handles = f.handles;
            halt = f.halt;
            key = key;
            idle = λ e. cc e;
            fits = ground arith;
            not_done = not_done;
            code = λ e. cc e;
            kept = λ h e. h (cc (f.code, e));
          })
          i)
    | inr last ↦ rw last (
        Inv-Released k given_up o _
          (record {
            tasks = cc (f.tasks, key);
            map = f.map;
            handles = f.handles;
            halt = f.halt;
            key = key;
            idle = λ e. cc e;
            fits = fits;
            not_done = not_done;
            code = λ e. ground arith;
            kept = λ h. ground arith;
          })
          i)
  ]

module _ (w : String) (x : Exit) (o : Orchestrator) (h : Handle) (t : TaskRecord) (i : Inv o)
    (handle : lookup w o.active_handles ≡ some h) (task : lookup h.task_id o.tasks ≡ some t) where
  abbrev freed : Orchestrator
  freed = record o {
    active_handles = remove w o.active_handles;
    task_worker_map = remove h.task_id o.task_worker_map;
  }

  holds : lookup h.task_id o.task_worker_map ≡ some w
  holds = i.held h.task_id w (ground (arith, handle))

  runs : status_at o.tasks h.task_id ≡ some TaskStatus.running
  runs = i.working h.task_id w holds

  -- No other worker has the task.
  freed-handles :
      (v : String)
      → task_at freed.active_handles v ≡ elim (task_at o.active_handles v) [
        | none ↦ none
        | some j ↦ if h.task_id == j then none else some j
      ]
  freed-handles v = elim (Option-cases (lookup v o.active_handles)) [
    | inl missing ↦ ground (arith, lookup-remove w v o.active_handles)
    | inr (g, found) ↦ ground (
      arith,
      lookup-remove w v o.active_handles,
      i.held h.task_id v,
      holds,
      handle,
      eq_iff w v,
      eq_iff h.task_id g.task_id,
    )
  ]

  freed-Freed : Freed h.task_id o freed
  freed-Freed = record {
    tasks = refl;
    code = refl;
    halt = refl;
    map = λ j. lookup-remove h.task_id j o.task_worker_map;
    handles = freed-handles;
  }

  exit-Inv : Inv (task_exited x t freed)
  unfolding task_exited
  exit-Inv = elim (Bool-cases (is_success x.returncode)) [
    | inl success ↦ rw success (
        Inv-Released h.task_id (record t { status = TaskStatus.done; ended_at = some x.wall }) o _
          (record {
            tasks = cc (i.keyed h.task_id t task);
            map = freed-Freed.map;
            handles = freed-Freed.handles;
            halt = freed-Freed.halt;
            key = i.keyed h.task_id t task;
            idle = λ e. cc e;
            fits = i.bounded h.task_id t task;
            not_done = λ e. cc (e, runs);
            code = λ e. cc e;
            kept = λ e. e;
          })
          i)
    | inr failure ↦ rw failure (
        retry-Inv x.clock h.task_id _ o freed freed-Freed (i.keyed h.task_id t task)
          (i.bounded h.task_id t task) (λ e. cc (e, runs)) i)
  ]

emit_task-Inv : (t : Option TaskRecord) (o : Orchestrator) → Inv o → Inv (emit_task t o)
emit_task-Inv none o i = i
emit_task-Inv (some t) o i = Inv-effects _ i

report_exit-Inv :
    (w : String) (h : Handle) (x : Exit) (o : Orchestrator) → Inv o → Inv (report_exit w h x o)
unfolding report_exit
report_exit-Inv w h x o i = Inv-effects _ (emit_task-Inv (lookup h.task_id o.tasks) o i)

close_worker-Inv :
    (w : String) (x : Exit) (o : Orchestrator) (h : Option Handle)
    → lookup w o.active_handles ≡ h
    → Inv o
    → Inv (close_worker w h x o)
unfolding close_worker close_task report_exit
close_worker-Inv w x o none e i = i
close_worker-Inv w x o (some h) e i = elim (Option-cases (lookup h.task_id o.tasks)) [
  | inl missing ↦ cc (missing, i.working h.task_id w (i.held h.task_id w (ground (arith, e))))
  | inr (t, found) ↦ rw found (report_exit-Inv w h x _ (exit-Inv w x o h t i e found))
]

-- The exit of any worker, known or not, whatever its code, keeps the invariant.
pub process_worker_exit-Inv :
    (w : String) (x : Exit) (o : Orchestrator) → Inv o → Inv (process_worker_exit w x o)
unfolding process_worker_exit
process_worker_exit-Inv w x o i = close_worker-Inv w x o (lookup w o.active_handles) refl i
