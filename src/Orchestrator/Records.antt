-- ===== src/Orchestrator/Records.antt =====
-- A rule for what holds of every task record and of every record that is written: it is enough that the
-- changes the code makes to a record keep it.
pub mod Turns
use tab_conductor.Prelude.{
  ℕ, String, ◌≡◌, refl, true, Option, none, some, List, [], ◌∷◌, arith, ◌==◌, Bool-cases,
  Option-cases, inl, inr, subst, All, All-map,
}
use tab_conductor.Prelude.Int.{ℤ}
use tab_conductor.Prelude.Call.{returns, >>=-returns}
use tab_conductor.Dict.{Dict, lookup, insert, keys, lookup-insert, HasDistinctKeys-lookup}
use tab_conductor.Value.{null, str}
use tab_conductor.Orchestrator.State.{
  TaskStatus, TaskRecord, Handle, Orchestrator, Effect, put_task, spawn_error, exited_with,
}
use tab_conductor.Orchestrator.Retry.{maybe_retry_task, ltb_ℤ, suc_ℤ}
use tab_conductor.Orchestrator.Ready.{is_ready, ready_among, get_ready_tasks, sort_by_priority}
use tab_conductor.Orchestrator.Spawn.{
  Answer, SpawnResult, started, refused, is_full, spawned, not_spawned, settle, spawn_task,
  spawn_each, spawn_ready_workers,
}
use tab_conductor.Orchestrator.Exit.{
  Exit, task_exited, report_exit, close_task, close_worker, process_worker_exit, is_success,
  emit_task,
}
use tab_conductor.Orchestrator.Round.{
  Poll, Turn, poll_worker, poll_workers, exited, process_exits, work, handle_signal, sigint,
  sigterm,
}
use tab_conductor.Orchestrator.Invariant.{Inv}
use tab_conductor.Orchestrator.Dispatch.{sort_by_priority-All, spawn_task-settle}
use tab_conductor.Orchestrator.Reach.{Reach, here, turns, signals, round-work, Reach-Inv}

-- The changes of a record keep `P`.
pub record IsKept (P : TaskRecord → Type 0) : Type 0 where
  pub runs :
      (t : TaskRecord) (w : String) (wall : ℕ)
      → P t
      → P (record t { status = TaskStatus.running; assigned_to = str w; started_at = some wall })
  pub fails_to_start :
      (t : TaskRecord) (message : String)
      → P t
      → P (record t { status = TaskStatus.failed; last_error = spawn_error message })
  pub fails :
      (t : TaskRecord) (code : ℤ) (wall : ℕ)
      → P t
      → P (record t {
        last_error = exited_with code;
        status = TaskStatus.failed;
        ended_at = some wall;
      })
  pub ends :
      (t : TaskRecord) (wall : ℕ)
      → P t
      → P (record t { status = TaskStatus.done; ended_at = some wall })
  pub retries :
      (t : TaskRecord) (clock : ℕ)
      → ltb_ℤ t.retries t.max_retries ≡ true
      → P t
      → P (record t {
        retries = suc_ℤ t.retries;
        status = TaskStatus.pending;
        assigned_to = null;
        retry_at = clock;
      })
  pub gives_up : (t : TaskRecord) → P t → P (record t { status = TaskStatus.terminal })

module _ (P : TaskRecord → Type 0) (p : IsKept P) where
  abbrev pub OnPut : Effect → Type 0
  OnPut (put_task t) = P t
  OnPut _ = Unit

  pub record Holds (o : Orchestrator) : Type 0 where
    pub records : (k : String) (t : TaskRecord) → lookup k o.tasks ≡ some t → P t
    pub written : All OnPut o.effects

  pub insert-P :
      (t : TaskRecord) (d : Dict TaskRecord)
      → P t
      → ((k : String) (u : TaskRecord) → lookup k d ≡ some u → P u)
      → (k : String) (u : TaskRecord) → lookup k (insert t.id t d) ≡ some u
      → P u
  insert-P t d h hs k u e = elim (Bool-cases (t.id == k)) [
    | inl same ↦ subst P (ground (arith, same, e, lookup-insert t.id k t d)) h
    | inr other ↦ hs k u (ground (arith, other, e, lookup-insert t.id k t d))
  ]

  pub maybe_retry_task-Holds :
      (clock : ℕ) (t : TaskRecord) (o : Orchestrator)
      → P t
      → Holds o
      → Holds (maybe_retry_task clock t o)
  unfolding maybe_retry_task
  maybe_retry_task-Holds clock t o h i = elim (Bool-cases (ltb_ℤ t.retries t.max_retries)) [
    | inl more ↦ rw more (record {
      records = insert-P _ o.tasks (p.retries t _ more h) i.records;
      written = i.written;
    })
    | inr last ↦
        rw last
          (record { records = insert-P _ o.tasks (p.gives_up t h) i.records; written = i.written })
  ]

  settle-Holds :
      (a : Answer) (r : SpawnResult) (t : TaskRecord) (o : Orchestrator)
      → P t
      → Holds o
      → Holds (settle a r t o)
  unfolding spawned not_spawned
  settle-Holds a (started pid) t o h i =
      let h' = p.runs t a.worker_id a.wall h in
      record { records = insert-P _ o.tasks h' i.records; written = (h', (tt, i.written)) }
  settle-Holds a (refused message) t o h i =
      maybe_retry_task-Holds a.clock _ o (p.fails_to_start t message h) i

  spawn_each-Holds :
      (env : String → Answer) (ts : List TaskRecord) (o o' : Orchestrator)
      → All P ts
      → spawn_each env ts o ≡ returns o'
      → Holds o
      → Holds o'
  unfolding spawn_each
  spawn_each-Holds env [] o o' hs h i = subst Holds {x = o} {y = o'} (cc h) i
  spawn_each-Holds env (t ∷ ts) o o' hs h i = elim (Bool-cases (is_full o)) [
    | inl full ↦ subst Holds {x = o} {y = o'} (cc (full, h)) i
    | inr room ↦
        let (o1, h1, h2) =
          >>=-returns (spawn_task env t o) (spawn_each env ts) {b = o'} (cc (room, h)) in
        elim (spawn_task-settle env t o o1 h1) [
          | inl same ↦ spawn_each-Holds env ts o o' hs.1 (cc (same, h2)) i
          | inr (idle, done) ↦
              spawn_each-Holds env ts (settle (env t.id) (env t.id).result t o) o' hs.1
                (cc (done, h2)) (settle-Holds (env t.id) (env t.id).result t o hs.0 i)
        ]
  ]

  ready_among-P :
      (now : ℕ) (o : Orchestrator) (d : Dict TaskRecord)
      → All (λ e. P e.1) d
      → All P (ready_among now o d)
  unfolding ready_among
  ready_among-P now o [] h = tt
  ready_among-P now o ((k, t) ∷ d) h = elim (Bool-cases (is_ready now o t)) [
    | inl ready ↦ rw ready (h.0, ready_among-P now o d h.1)
    | inr other ↦ rw other (ready_among-P now o d h.1)
  ]

  pub spawn_ready_workers-Holds :
      (now : ℕ) (env : String → Answer) (o o' : Orchestrator)
      → Inv o
      → spawn_ready_workers now env o ≡ returns o'
      → Holds o
      → Holds o'
  unfolding spawn_ready_workers get_ready_tasks
  spawn_ready_workers-Holds now env o o' inv h i = elim (Bool-cases (is_full o)) [
    | inl full ↦ subst Holds {x = o} {y = o'} (cc (full, h)) i
    | inr room ↦
        spawn_each-Holds env (sort_by_priority (ready_among now o o.tasks)) o o'
          (sort_by_priority-All P (ready_among now o o.tasks) (
            ready_among-P now o o.tasks (
              All-map o.tasks (λ e found. i.records e.0 e.1 found)
                (HasDistinctKeys-lookup o.tasks inv.distinct))))
          (cc (room, h)) i
  ]
