-- ===== src/Orchestrator/Starts.antt =====
-- The invariant in an attempt to spawn a worker, whether it succeeds or not.
use tab_conductor.Prelude.{
  ℕ, String, ◌≡◌, refl, ◌≢◌, true, none, some, arith, ◌==◌, eq_iff, contains, if◌then◌else◌,
  Option-cases, inl, inr,
}
use tab_conductor.Prelude.Int.{◌≤ℤ◌}
use tab_conductor.Dict.{lookup, insert, lookup-insert, HasDistinctKeys-insert}
use tab_conductor.Orchestrator.State.{TaskStatus, TaskRecord, Handle, Orchestrator, set_task}
use tab_conductor.Value.{str}
use tab_conductor.Orchestrator.Spawn.{
  Answer, SpawnResult, started, refused, spawned, not_spawned, settle,
}
use tab_conductor.Orchestrator.Invariant.{status_at, task_at, Inv, Inv-effects}
use tab_conductor.Orchestrator.Steps.{retry-Inv}

-- What `_get_ready_tasks` and a new id give when a worker is spawned for the task.
pub record Claim (a : Answer) (t : TaskRecord) (o : Orchestrator) : Type 0 where
  pub new_worker : task_at o.active_handles a.worker_id ≡ none
  pub not_done : status_at o.tasks t.id ≢ some TaskStatus.done
  pub unassigned : lookup t.id o.task_worker_map ≡ none
  pub ready :
      (dep : String)
      → contains dep t.depends_on ≡ true
      → status_at o.tasks dep ≡ some TaskStatus.done
  pub fits : t.retries ≤ℤ t.max_retries

module _ (a : Answer) (t : TaskRecord) (o : Orchestrator) (c : Claim a t o) (i : Inv o) where
  -- No worker has the task.
  unheld :
      (w : String)
      → task_at o.active_handles w ≡ elim (task_at o.active_handles w) [
        | none ↦ none
        | some j ↦ if t.id == j then none else some j
      ]
  unheld w = elim (Option-cases (lookup w o.active_handles)) [
    | inl missing ↦ ground (arith, missing)
    | inr (g, found) ↦
        ground (arith, found, i.held g.task_id w, c.unassigned, eq_iff t.id g.task_id)
  ]

  not_spawned-Inv : (message : String) → Inv (not_spawned a message t o)
  unfolding not_spawned
  not_spawned-Inv message =
      retry-Inv a.clock t.id _ o o
        (record {
          tasks = refl;
          code = refl;
          halt = refl;
          map = λ j. ground (arith, c.unassigned, eq_iff t.id j);
          handles = unheld;
        })
        refl c.fits c.not_done i

  module _ (pid : ℕ) where
    abbrev t' : TaskRecord
    t' = record t {
      status = TaskStatus.running;
      assigned_to = str a.worker_id;
      started_at = some a.wall;
    }

    abbrev h' : Handle
    h' = record { task_id = t.id; pid = pid }

    at_task :
        (j : String)
        → lookup j (insert t.id t' o.tasks) ≡ (if t.id == j then some t' else lookup j o.tasks)
    at_task j = lookup-insert t.id j t' o.tasks

    at_map :
        (j : String)
        → lookup j (insert t.id a.worker_id o.task_worker_map)
          ≡ (if t.id == j then some a.worker_id else lookup j o.task_worker_map)
    at_map j = lookup-insert t.id j a.worker_id o.task_worker_map

    at_handle :
        (w : String)
        → lookup w (insert a.worker_id h' o.active_handles)
          ≡ (if a.worker_id == w then some h' else lookup w o.active_handles)
    at_handle w = lookup-insert a.worker_id w h' o.active_handles

    abbrev started_state : Orchestrator
    started_state = record (set_task t' o) {
      active_handles = insert a.worker_id h' o.active_handles;
      task_worker_map = insert t.id a.worker_id o.task_worker_map;
    }

    spawned-Inv : Inv (spawned a pid t o)
    unfolding spawned
    spawned-Inv = Inv-effects _ {o = started_state} (record {
      distinct = HasDistinctKeys-insert t.id t' o.tasks i.distinct;
      keyed = λ j u h. ground (arith, lookup-insert t.id j t' o.tasks, eq_iff t.id j, i.keyed j u);
      held = λ j w h. ground (
        arith,
        at_map j,
        at_handle w,
        i.held j w,
        c.unassigned,
        eq_iff t.id j,
        eq_iff a.worker_id w,
      );
      holder = λ j w h. ground (
        arith,
        at_map j,
        at_handle w,
        i.holder j w,
        c.new_worker,
        eq_iff t.id j,
        eq_iff a.worker_id w,
      );
      working = λ j w h. ground (arith, at_map j, at_task j, i.working j w);
      assigned = λ j h e. ground (arith, at_map j, at_task j, i.assigned j);
      supplied = λ j dep u h run d. ground (
        arith,
        at_task j,
        at_task dep,
        i.supplied j dep u,
        c.ready dep,
        c.not_done,
        eq_iff t.id dep,
      );
      bounded = λ j u h. ground (arith, lookup-insert t.id j t' o.tasks, i.bounded j u, c.fits);
      reported = λ j h e. ground (arith, lookup-insert t.id j t' o.tasks, i.reported j);
      halted = i.halted;
    })

  pub settle-Inv : (r : SpawnResult) → Inv (settle a r t o)
  settle-Inv (started pid) = spawned-Inv pid
  settle-Inv (refused message) = not_spawned-Inv message
