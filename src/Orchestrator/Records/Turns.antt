-- ===== src/Orchestrator/Records/Turns.antt =====
-- A turn of the loop, and a run: what holds of the records and of what is written stays so.
use tab_conductor.Prelude.{
  String, ◌≡◌, refl, Option, none, some, List, [], ◌∷◌, Bool-cases, Option-cases, inl, inr, subst,
}
use tab_conductor.Prelude.Call.{returns}
use tab_conductor.Dict.{lookup, keys}
use tab_conductor.Orchestrator.State.{TaskRecord, Handle, Orchestrator}
use tab_conductor.Orchestrator.Exit.{
  Exit, task_exited, report_exit, close_task, close_worker, process_worker_exit, is_success,
  emit_task,
}
use tab_conductor.Orchestrator.Work.{work-returns}
use tab_conductor.Orchestrator.Round.{
  Poll, Turn, poll_worker, poll_workers, exited, process_exits, work, handle_signal, sigint,
  sigterm,
}
use tab_conductor.Orchestrator.Invariant.{Inv}
use tab_conductor.Orchestrator.Reach.{Reach, here, turns, signals, round-work, Reach-Inv}
use tab_conductor.Orchestrator.Records.{
  IsKept, Holds, insert-P, maybe_retry_task-Holds, spawn_ready_workers-Holds,
}

module _ (P : TaskRecord → Type 0) (p : IsKept P) where
  task_exited-Holds :
      (x : Exit) (t : TaskRecord) (o : Orchestrator)
      → P t
      → Holds P p o
      → Holds P p (task_exited x t o)
  unfolding task_exited
  task_exited-Holds x t o h i = elim (Bool-cases (is_success x.returncode)) [
    | inl success ↦ rw success (record {
      records = insert-P P p _ o.tasks (p.ends t x.wall h) i.records;
      written = i.written;
    })
    | inr failure ↦
        rw failure (maybe_retry_task-Holds P p x.clock _ o (p.fails t x.returncode x.wall h) i)
  ]

  emit_task-Holds :
      (k : String) (r : Option TaskRecord) (o : Orchestrator)
      → lookup k o.tasks ≡ r
      → Holds P p o
      → Holds P p (emit_task r o)
  emit_task-Holds k none o e i = i
  emit_task-Holds k (some t) o e i = record {
    records = i.records;
    written = (i.records k t e, i.written);
  }

  report_exit-Holds :
      (w : String) (h : Handle) (x : Exit) (o : Orchestrator)
      → Holds P p o
      → Holds P p (report_exit w h x o)
  unfolding report_exit
  report_exit-Holds w h x o i =
      let j = emit_task-Holds h.task_id (lookup h.task_id o.tasks) o refl i in
      record { records = j.records; written = (tt, (tt, j.written)) }

  close_worker-Holds :
      (w : String) (h : Option Handle) (x : Exit) (o : Orchestrator)
      → Holds P p o
      → Holds P p (close_worker w h x o)
  unfolding close_worker close_task
  close_worker-Holds w none x o i = i
  close_worker-Holds w (some h) x o i = elim (Option-cases (lookup h.task_id o.tasks)) [
    | inl missing ↦ rw missing (record { records = i.records; written = i.written })
    | inr (t, found) ↦ rw found (
        report_exit-Holds w h x _ (
          task_exited-Holds x t _ (i.records h.task_id t found)
            (record { records = i.records; written = i.written })))
  ]

  process_exits-Holds :
      (exits : String → Exit) (ws : List String) (o : Orchestrator)
      → Holds P p o
      → Holds P p (process_exits exits ws o)
  unfolding process_exits process_worker_exit
  process_exits-Holds exits [] o i = i
  process_exits-Holds exits (w ∷ ws) o i =
      process_exits-Holds exits ws (process_worker_exit w (exits w) o)
        (close_worker-Holds w (lookup w o.active_handles) (exits w) o i)

  poll_worker-Holds :
      (q : Poll) (w : String) (o : Orchestrator) → Holds P p o → Holds P p (poll_worker q w o)
  unfolding poll_worker
  poll_worker-Holds q w o i = elim (Bool-cases q.kill_candidate) [
    | inl kill ↦ rw kill (elim (Bool-cases q.over_global) [
      | inl over ↦ rw over (record { records = i.records; written = (tt, (tt, (tt, i.written))) })
      | inr under ↦ rw under (record { records = i.records; written = (tt, (tt, i.written)) })
    ])
    | inr spare ↦ rw spare (elim (Bool-cases q.over_global) [
      | inl over ↦ rw over (record { records = i.records; written = (tt, i.written) })
      | inr under ↦ rw under i
    ])
  ]

  poll_workers-Holds :
      (polls : String → Poll) (ws : List String) (o : Orchestrator)
      → Holds P p o
      → Holds P p (poll_workers polls ws o)
  unfolding poll_workers
  poll_workers-Holds polls [] o i = i
  poll_workers-Holds polls (w ∷ ws) o i =
      poll_workers-Holds polls ws (poll_worker (polls w) w o) (poll_worker-Holds (polls w) w o i)

  work-Holds :
      (turn : Turn) (o o' : Orchestrator)
      → work turn o ≡ returns o'
      → Inv o
      → Holds P p o
      → Holds P p o'
  unfolding work
  work-Holds turn o o' h inv i =
      let (o1, h1, h2) = work-returns turn o o' h in
      let ws = keys o1.active_handles in
      let o2 = poll_workers turn.polls ws o1 in
      subst (Holds P p) {x = process_exits turn.exits (exited turn.polls ws) o2} {y = o'} (cc h2) (
        process_exits-Holds turn.exits (exited turn.polls ws) o2 (
          poll_workers-Holds turn.polls ws o1
            (spawn_ready_workers-Holds P p turn.now turn.spawns o o1 inv h1 i)))

  pub Reach-Holds : (o o' : Orchestrator) → Inv o → Holds P p o → Reach o o' → Holds P p o'
  unfolding handle_signal
  Reach-Holds o _ inv i here = i
  Reach-Holds o o' inv i (turns turn r fresh h) =
      work-Holds turn _ o' (round-work turn _ o' h) (Reach-Inv o _ inv r) (Reach-Holds o _ inv i r)
  Reach-Holds o _ inv i (signals sigint r) =
      let j = Reach-Holds o _ inv i r in record { records = j.records; written = j.written }
  Reach-Holds o _ inv i (signals sigterm r) =
      let j = Reach-Holds o _ inv i r in record { records = j.records; written = j.written }
