-- ===== src/Orchestrator/Frame.antt =====
-- The tasks that a turn of the loop leaves as they are.
use tab_conductor.Prelude.{
  ℕ, String, ◌≡◌, refl, ◌≢◌, false, Option, none, some, List, [], ◌∷◌, arith, ◌==◌, eq_iff,
  Bool-cases, Option-cases, inl, inr, All, ◌∙◌,
}
use tab_conductor.Prelude.Call.{returns, >>=-returns}
use tab_conductor.Dict.{lookup, keys, lookup-insert_other}
use tab_conductor.Orchestrator.State.{TaskStatus, TaskRecord, Handle, Orchestrator}
use tab_conductor.Orchestrator.Retry.{maybe_retry_task, ltb_ℤ}
use tab_conductor.Orchestrator.Ready.{get_ready_tasks, sort_by_priority}
use tab_conductor.Orchestrator.Spawn.{
  Answer, SpawnResult, started, refused, is_full, spawned, not_spawned, settle, spawn_task,
  spawn_each, spawn_ready_workers,
}
use tab_conductor.Orchestrator.Exit.{
  Exit, task_exited, report_exit, close_task, close_worker, process_worker_exit, is_success,
  emit_task,
}
use tab_conductor.Orchestrator.Work.{work-returns}
use tab_conductor.Orchestrator.Round.{
  Poll, Turn, poll_worker, poll_workers, exited, process_exits, work,
}
use tab_conductor.Orchestrator.Invariant.{status_at, Inv}
use tab_conductor.Orchestrator.Steps.{process_worker_exit-Inv}
use tab_conductor.Orchestrator.Dispatch.{
  Fresh, sort_by_priority-All, spawn_task-settle, spawn_ready_workers-Inv,
}
use tab_conductor.Orchestrator.Reach.{poll_workers-Inv}

module _ (j : String) where
  maybe_retry_task-lookup :
      (clock : ℕ) (t : TaskRecord) (o : Orchestrator)
      → (t.id == j) ≡ false
      → lookup j (maybe_retry_task clock t o).tasks ≡ lookup j o.tasks
  unfolding maybe_retry_task
  maybe_retry_task-lookup clock t o n = elim (Bool-cases (ltb_ℤ t.retries t.max_retries)) [
    | inl more ↦ rw more (lookup-insert_other t.id j _ o.tasks n)
    | inr last ↦ rw last (lookup-insert_other t.id j _ o.tasks n)
  ]

  settle-lookup :
      (a : Answer) (r : SpawnResult) (t : TaskRecord) (o : Orchestrator)
      → (t.id == j) ≡ false
      → lookup j (settle a r t o).tasks ≡ lookup j o.tasks
  unfolding spawned not_spawned
  settle-lookup a (started pid) t o n = lookup-insert_other t.id j _ o.tasks n
  settle-lookup a (refused message) t o n = maybe_retry_task-lookup a.clock _ o n

  spawn_each-lookup :
      (env : String → Answer) (ts : List TaskRecord) (o o' : Orchestrator)
      → All (λ (t : TaskRecord). (t.id == j) ≡ false) ts
      → spawn_each env ts o ≡ returns o'
      → lookup j o'.tasks ≡ lookup j o.tasks
  unfolding spawn_each
  spawn_each-lookup env [] o o' ns h = cc h
  spawn_each-lookup env (t ∷ ts) o o' ns h = elim (Bool-cases (is_full o)) [
    | inl full ↦ cc (full, h)
    | inr room ↦
        let (o1, h1, h2) =
          >>=-returns (spawn_task env t o) (spawn_each env ts) {b = o'} (cc (room, h)) in
        elim (spawn_task-settle env t o o1 h1) [
          | inl same ↦ spawn_each-lookup env ts o o' ns.1 (cc (same, h2))
          | inr (idle, done) ↦
              spawn_each-lookup env ts (settle (env t.id) (env t.id).result t o) o' ns.1
                (cc (done, h2))
              ∙ settle-lookup (env t.id) (env t.id).result t o ns.0
        ]
  ]

  spawn_ready_workers-lookup :
      (now : ℕ) (env : String → Answer) (o o' : Orchestrator)
      → All (λ (t : TaskRecord). (t.id == j) ≡ false) (get_ready_tasks now o)
      → spawn_ready_workers now env o ≡ returns o'
      → lookup j o'.tasks ≡ lookup j o.tasks
  unfolding spawn_ready_workers
  spawn_ready_workers-lookup now env o o' ns h = elim (Bool-cases (is_full o)) [
    | inl full ↦ cc (full, h)
    | inr room ↦
        spawn_each-lookup env (sort_by_priority (get_ready_tasks now o)) o o'
          (sort_by_priority-All (λ (t : TaskRecord). (t.id == j) ≡ false) (get_ready_tasks now o)
            ns)
          (cc (room, h))
  ]

  task_exited-lookup :
      (x : Exit) (t : TaskRecord) (o : Orchestrator)
      → (t.id == j) ≡ false
      → lookup j (task_exited x t o).tasks ≡ lookup j o.tasks
  unfolding task_exited
  task_exited-lookup x t o n = elim (Bool-cases (is_success x.returncode)) [
    | inl success ↦ rw success (lookup-insert_other t.id j _ o.tasks n)
    | inr failure ↦ rw failure (maybe_retry_task-lookup x.clock _ o n)
  ]

  emit_task-lookup :
      (t : Option TaskRecord) (o : Orchestrator) → lookup j (emit_task t o).tasks ≡ lookup j o.tasks
  emit_task-lookup none o = refl
  emit_task-lookup (some t) o = refl

  -- The exit of a worker changes the task that it had, and no other.
  close_worker-lookup :
      (w : String) (h : Option Handle) (x : Exit) (o : Orchestrator)
      → lookup w o.active_handles ≡ h
      → Inv o
      → status_at o.tasks j ≢ some TaskStatus.running
      → lookup j (close_worker w h x o).tasks ≡ lookup j o.tasks
  unfolding close_worker close_task report_exit
  close_worker-lookup w none x o e i n = refl
  close_worker-lookup w (some h) x o e i n = elim (Option-cases (lookup h.task_id o.tasks)) [
    | inl missing ↦ rw missing refl
    | inr (t, found) ↦ rw found (
        emit_task-lookup _ _
        ∙ task_exited-lookup x t _ (
            ground (
              arith,
              e,
              found,
              n,
              i.held h.task_id w,
              i.working h.task_id w,
              i.keyed h.task_id t,
              eq_iff t.id j,
            )))
  ]

  poll_worker-lookup :
      (p : Poll) (w : String) (o : Orchestrator)
      → lookup j (poll_worker p w o).tasks ≡ lookup j o.tasks
  unfolding poll_worker
  poll_worker-lookup p w o = elim (Bool-cases p.kill_candidate) [
    | inl kill ↦
        rw kill
          (elim (Bool-cases p.over_global) [ inl over ↦ rw over refl | inr under ↦ rw under refl ])
    | inr spare ↦
        rw spare
          (elim (Bool-cases p.over_global) [ inl over ↦ rw over refl | inr under ↦ rw under refl ])
  ]

  poll_workers-lookup :
      (polls : String → Poll) (ws : List String) (o : Orchestrator)
      → lookup j (poll_workers polls ws o).tasks ≡ lookup j o.tasks
  unfolding poll_workers poll_worker
  poll_workers-lookup polls [] o = refl
  poll_workers-lookup polls (w ∷ ws) o =
      poll_workers-lookup polls ws (poll_worker (polls w) w o) ∙ poll_worker-lookup (polls w) w o

  process_exits-lookup :
      (exits : String → Exit) (ws : List String) (o : Orchestrator)
      → Inv o
      → status_at o.tasks j ≢ some TaskStatus.running
      → lookup j (process_exits exits ws o).tasks ≡ lookup j o.tasks
  unfolding process_exits process_worker_exit
  process_exits-lookup exits [] o i n = refl
  process_exits-lookup exits (w ∷ ws) o i n =
      let same = close_worker-lookup w (lookup w o.active_handles) (exits w) o refl i n in
      process_exits-lookup exits ws (process_worker_exit w (exits w) o)
        (process_worker_exit-Inv w (exits w) o i) (λ e. n (cc (same, e)))
      ∙ same

  -- A turn leaves a task as it is that is not running and is not among the ready ones.
  pub work-lookup :
      (turn : Turn) (o o' : Orchestrator)
      → Fresh turn.spawns o
      → Inv o
      → status_at o.tasks j ≢ some TaskStatus.running
      → All (λ (t : TaskRecord). (t.id == j) ≡ false) (get_ready_tasks turn.now o)
      → work turn o ≡ returns o'
      → lookup j o'.tasks ≡ lookup j o.tasks
  unfolding work spawn_ready_workers
  work-lookup turn o o' fresh i n ns h =
      let (o1, h1, h2) = work-returns turn o o' h in
      let ws = keys o1.active_handles in
      let o2 = poll_workers turn.polls ws o1 in
      let at1 = spawn_ready_workers-lookup turn.now turn.spawns o o1 ns h1 in
      let at2 = poll_workers-lookup turn.polls ws o1 in
      let i2 =
        poll_workers-Inv turn.polls ws o1
          (spawn_ready_workers-Inv turn.now turn.spawns o o1 fresh h1 i) in
      let at3 =
        process_exits-lookup turn.exits (exited turn.polls ws) o2 i2 (λ e. n (cc (at1, at2, e))) in
      cc (h2, at1, at2, at3)
