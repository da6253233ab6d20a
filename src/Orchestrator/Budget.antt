-- ===== src/Orchestrator/Budget.antt =====
-- The attempts that the tasks have left.
use tab_conductor.Prelude.{
  ℕ, suc, ◌+◌, ◌-◌, ◌<◌, String, ◌≡◌, refl, true, Option, none, some, [], ◌∷◌, arith, ◌==◌,
  Bool-cases, Option-cases, inl, inr, ap,
}
use tab_conductor.Prelude.Int.{ℤ, pos_part, neg_part, ◌≤ℤ◌}
use tab_conductor.Dict.{Dict, lookup, insert, remove}
use tab_conductor.Value.{null}
use tab_conductor.Orchestrator.State.{TaskStatus, TaskRecord, Handle, Orchestrator}
use tab_conductor.Orchestrator.Retry.{backoff, maybe_retry_task, ltb_ℤ, suc_ℤ}
use tab_conductor.Orchestrator.Exit.{
  Exit, task_exited, report_exit, close_task, close_worker, process_worker_exit, is_success,
  emit_task,
}
use tab_conductor.Orchestrator.Invariant.{Inv}

-- the workers that may still end for a task: one more than its retries, while it is not settled
abbrev pub attempts : TaskStatus → ℤ → ℤ → ℕ
attempts TaskStatus.pending retries max_retries =
    suc (pos_part max_retries + neg_part retries) - (pos_part retries + neg_part max_retries)
attempts TaskStatus.running retries max_retries =
    suc (pos_part max_retries + neg_part retries) - (pos_part retries + neg_part max_retries)
attempts _ retries max_retries = 0

abbrev pub attempts_left : TaskRecord → ℕ
attempts_left t = attempts t.status t.retries t.max_retries

abbrev pub budget : Dict TaskRecord → ℕ
budget [] = 0
budget ((k, t) ∷ d) = attempts_left t + budget d

budget-insert :
    (k : String) (t t' : TaskRecord) (d : Dict TaskRecord)
    → lookup k d ≡ some t
    → budget (insert k t' d) + attempts_left t ≡ budget d + attempts_left t'
unfolding lookup insert
budget-insert k t t' [] h = cc h
budget-insert k t t' ((j, u) ∷ d) h = elim (Bool-cases (j == k)) [
  | inl same ↦ let e : u ≡ t = cc (same, h) in rw same (omega (arith, ap attempts_left e))
  | inr other ↦ rw other (omega (arith, budget-insert k t t' d (cc (other, h))))
]

abbrev again : ℕ → TaskRecord → Orchestrator → TaskRecord
again clock t o = record t {
  retries = suc_ℤ t.retries;
  status = TaskStatus.pending;
  assigned_to = null;
  retry_at = clock + backoff o.config t.retries;
}

abbrev given_up : TaskRecord → TaskRecord
given_up t = record t { status = TaskStatus.terminal }

attempts_retry :
    (r m : ℤ)
    → ltb_ℤ r m ≡ true
    → attempts TaskStatus.pending (suc_ℤ r) m < attempts TaskStatus.running r m
attempts_retry r m h = ground arith

attempts_fits : (r m : ℤ) → r ≤ℤ m → 0 < attempts TaskStatus.running r m
attempts_fits r m h = omega (arith, h)

module _ (clock : ℕ) (t : TaskRecord) (o : Orchestrator) (u : TaskRecord)
    (old : lookup t.id o.tasks ≡ some u) (running : u.status ≡ TaskStatus.running)
    (retries : t.retries ≡ u.retries) (max_retries : t.max_retries ≡ u.max_retries)
    (fits : t.retries ≤ℤ t.max_retries) where
  before : attempts_left u ≡ attempts TaskStatus.running t.retries t.max_retries
  before = cc (running, retries, max_retries)

  maybe_retry_task-budget : budget (maybe_retry_task clock t o).tasks < budget o.tasks
  unfolding maybe_retry_task
  maybe_retry_task-budget = elim (Bool-cases (ltb_ℤ t.retries t.max_retries)) [
    | inl more ↦ rw more (
        omega (
          arith,
          budget-insert t.id u (again clock t o) o.tasks old,
          before,
          attempts_retry t.retries t.max_retries more,
        ))
    | inr last ↦ rw last (
        omega (
          arith,
          budget-insert t.id u (given_up t) o.tasks old,
          before,
          attempts_fits t.retries t.max_retries fits,
        ))
  ]

task_exited-budget :
    (x : Exit) (t : TaskRecord) (o : Orchestrator)
    → lookup t.id o.tasks ≡ some t
    → t.status ≡ TaskStatus.running
    → t.retries ≤ℤ t.max_retries
    → budget (task_exited x t o).tasks < budget o.tasks
unfolding task_exited
task_exited-budget x t o found running fits = elim (Bool-cases (is_success x.returncode)) [
  | inl success ↦ rw success (
      omega (
        arith,
        budget-insert t.id t (record t { status = TaskStatus.done; ended_at = some x.wall }) o.tasks
            found,
        attempts_fits t.retries t.max_retries fits,
        before 0 t o t found running refl refl fits,
      ))
  | inr failure ↦ rw failure (maybe_retry_task-budget x.clock _ o t found running refl refl fits)
]

emit_task-budget :
    (t : Option TaskRecord) (o : Orchestrator) → budget (emit_task t o).tasks ≡ budget o.tasks
emit_task-budget none o = refl
emit_task-budget (some t) o = refl

-- If the invariant holds, then the exit of an active worker, whatever its code, lessens the number of
-- worker exits that the tasks have left: one more than the retries left for each task that is pending
-- or running.
pub process_worker_exit-budget :
    (w : String) (x : Exit) (o : Orchestrator) (h : Handle)
    → Inv o
    → lookup w o.active_handles ≡ some h
    → budget (process_worker_exit w x o).tasks < budget o.tasks
unfolding process_worker_exit close_worker close_task report_exit
process_worker_exit-budget w x o h i active =
    let runs = i.working h.task_id w (i.held h.task_id w (ground (arith, active))) in
    elim (Option-cases (lookup h.task_id o.tasks)) [
      | inl missing ↦ cc (missing, runs)
      | inr (t, found) ↦
          let o1 = record o {
            active_handles = remove w o.active_handles;
            task_worker_map = remove h.task_id o.task_worker_map;
          } in
          let o2 = task_exited x t o1 in
          rw (active, found)
            (omega (
              arith,
              emit_task-budget (lookup h.task_id o2.tasks) o2,
              task_exited-budget x t o1 (cc (found, i.keyed h.task_id t found)) (cc (found, runs))
                  (i.bounded h.task_id t found),
            ))
    ]
