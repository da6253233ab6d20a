-- ===== src/Orchestrator/Exit.antt =====
-- `_process_worker_exit`.
use tab_conductor.Prelude.{ℕ, zero, String, Bool, true, false, Option, none, some, if◌then◌else◌}
use tab_conductor.Prelude.Int.{ℤ, pos}
use tab_conductor.Dict.{lookup, remove}
use tab_conductor.Orchestrator.State.{
  TaskRecord, Handle, Orchestrator, TaskStatus, WorkerStatus, exited_with, put_worker, put_task,
  set_task, set_cost, emit,
}
use tab_conductor.Orchestrator.Retry.{maybe_retry_task}

-- What `handle.close()` reports, and the clocks.
pub record Exit : Type 0 where
  pub returncode : ℤ
  pub clock : ℕ
  pub wall : ℕ

unfoldable pub is_success : ℤ → Bool
is_success (pos zero) = true
is_success _ = false

-- the task's record after the worker's success or failure
unfoldable pub task_exited : Exit → TaskRecord → Orchestrator → Orchestrator
task_exited x t o =
    if is_success x.returncode
    then set_task (record t { status = TaskStatus.done; ended_at = some x.wall }) o
    else maybe_retry_task x.clock
        (record t {
          last_error = exited_with x.returncode;
          status = TaskStatus.failed;
          ended_at = some x.wall;
        })
        o

-- `_update_state_task(task)` reads the record that the lines before it changed
abbrev pub emit_task : Option TaskRecord → Orchestrator → Orchestrator
emit_task none o = o
emit_task (some t) o = emit (put_task t) o

unfoldable pub report_exit : String → Handle → Exit → Orchestrator → Orchestrator
report_exit worker_id h x o = emit set_cost (
    emit
      (put_worker worker_id h.task_id h.pid
        (if is_success x.returncode then WorkerStatus.done else WorkerStatus.failed))
      (emit_task (lookup h.task_id o.tasks) o))

unfoldable pub close_task : String → Handle → Exit → Option TaskRecord → Orchestrator → Orchestrator
close_task worker_id h x none o = o
close_task worker_id h x (some t) o =
    report_exit worker_id h x
      (task_exited x t (record o { task_worker_map = remove h.task_id o.task_worker_map }))

unfoldable pub close_worker : String → Option Handle → Exit → Orchestrator → Orchestrator
close_worker worker_id none x o = o
close_worker worker_id (some h) x o =
    close_task worker_id h x (lookup h.task_id o.tasks)
      (record o { active_handles = remove worker_id o.active_handles })

unfoldable pub process_worker_exit : String → Exit → Orchestrator → Orchestrator
unfolding close_worker close_task
process_worker_exit worker_id x o = close_worker worker_id (lookup worker_id o.active_handles) x o
