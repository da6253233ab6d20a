-- ===== src/Orchestrator/Spawn.antt =====
-- `_spawn_ready_workers`.
use tab_conductor.Prelude.{ℕ, String, Bool, some, List, [], ◌∷◌, if◌then◌else◌, length}
use tab_conductor.Prelude.Int.{pos, leb_ℤ}
use tab_conductor.Prelude.Call.{Call, returns, raises, ◌>>=◌}
use tab_conductor.Dict.{insert, has}
use tab_conductor.Value.{str}
use tab_conductor.Orchestrator.State.{
  TaskRecord, Orchestrator, OrchestratorError, embedded_null, TaskStatus, WorkerStatus, spawn_error,
  put_worker, put_task, set_task, emit,
}
use tab_conductor.Orchestrator.Command.{build_worker_cmd, any_nul}
use tab_conductor.Orchestrator.Retry.{maybe_retry_task}
use tab_conductor.Orchestrator.Ready.{get_ready_tasks, sort_by_priority}

-- `Runner.spawn` returns a handle with a pid, or raises an OSError with a message
pub data SpawnResult : Type 0 where
  started : ℕ → SpawnResult
  refused : String → SpawnResult

-- What the attempt to spawn a worker for a task meets.
pub record Answer : Type 0 where
  -- ulid.new()
  pub worker_id : String
  pub result : SpawnResult
  -- the monotonic and the wall clock
  pub clock : ℕ
  pub wall : ℕ

unfoldable pub is_full : Orchestrator → Bool
is_full o = leb_ℤ o.config.max_parallel (pos (length o.active_handles))

unfoldable pub spawned : Answer → ℕ → TaskRecord → Orchestrator → Orchestrator
spawned a pid t o =
    let t' = record t {
      status = TaskStatus.running;
      assigned_to = str a.worker_id;
      started_at = some a.wall;
    } in
    emit (put_task t') (
      emit (put_worker a.worker_id t.id pid WorkerStatus.running) (record (set_task t' o) {
        active_handles = insert a.worker_id (record { task_id = t.id; pid = pid }) o.active_handles;
        task_worker_map = insert t.id a.worker_id o.task_worker_map;
      }))

unfoldable pub not_spawned : Answer → String → TaskRecord → Orchestrator → Orchestrator
not_spawned a message t o =
    maybe_retry_task a.clock
      (record t { status = TaskStatus.failed; last_error = spawn_error message }) o

abbrev pub settle : Answer → SpawnResult → TaskRecord → Orchestrator → Orchestrator
settle a (started pid) t o = spawned a pid t o
settle a (refused message) t o = not_spawned a message t o

abbrev pub launch_with :
    Answer → TaskRecord → Orchestrator → List String → Call OrchestratorError Orchestrator
launch_with a t o cmd =
    if any_nul cmd then raises embedded_null else returns (settle a a.result t o)

-- the body of `for task in ready`, past its `break`
unfoldable pub spawn_task :
    (String → Answer) → TaskRecord → Orchestrator → Call OrchestratorError Orchestrator
spawn_task env t o =
    if has t.id o.task_worker_map
    then returns o
    else (build_worker_cmd o.config t (env t.id).worker_id >>= launch_with (env t.id) t o)

unfoldable pub spawn_each :
    (String → Answer) → List TaskRecord → Orchestrator → Call OrchestratorError Orchestrator
spawn_each env [] o = returns o
spawn_each env (t ∷ ts) o =
    if is_full o then returns o else (spawn_task env t o >>= spawn_each env ts)

unfoldable pub spawn_ready_workers :
    ℕ → (String → Answer) → Orchestrator → Call OrchestratorError Orchestrator
spawn_ready_workers now env o =
    if is_full o then returns o else spawn_each env (sort_by_priority (get_ready_tasks now o)) o
