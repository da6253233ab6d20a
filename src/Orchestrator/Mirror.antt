-- ===== src/Orchestrator/Mirror.antt =====
-- The tasks that the updates have written, against the orchestrator's, as long as no spawn is refused.
use tab_conductor.Prelude.{
  ℕ, String, ◌≡◌, refl, Option, none, some, List, [], ◌∷◌, arith, ◌==◌, eq_iff, if◌then◌else◌,
  Bool-cases, Option-cases, inl, inr, ◌∙◌, subst,
}
use tab_conductor.Prelude.Call.{returns, >>=-returns}
use tab_conductor.Dict.{Dict, lookup, insert, remove, keys, lookup-insert}
use tab_conductor.Cost.Usd.{Money}
use tab_conductor.Orchestrator.State.{TaskRecord, Handle, Orchestrator}
use tab_conductor.Orchestrator.Retry.{maybe_retry_task, ltb_ℤ}
use tab_conductor.Orchestrator.Ready.{get_ready_tasks, sort_by_priority}
use tab_conductor.Orchestrator.Spawn.{
  Answer, started, is_full, spawned, settle, spawn_task, spawn_each, spawn_ready_workers,
}
use tab_conductor.Orchestrator.Exit.{
  Exit, task_exited, report_exit, close_task, close_worker, process_worker_exit, is_success,
}
use tab_conductor.Orchestrator.Work.{work-returns}
use tab_conductor.Orchestrator.Round.{
  Poll, Turn, poll_worker, poll_workers, exited, process_exits, work, handle_signal, sigint,
  sigterm,
}
use tab_conductor.Orchestrator.Invariant.{Inv}
use tab_conductor.Orchestrator.Steps.{process_worker_exit-Inv}
use tab_conductor.Orchestrator.Dispatch.{Fresh, spawn_task-settle, spawn_ready_workers-Inv}
use tab_conductor.Orchestrator.Reach.{
  Reach, here, turns, signals, round-work, Reach-Inv, poll_workers-Inv,
}
use tab_conductor.Orchestrator.Document.{
  TaskDict, task_to_dict, upsert_task, Body, Stamp, mutate, replay,
}

-- the first task of the id `k`
unfoldable pub find_task : String → List TaskDict → Option TaskDict
find_task k [] = none
find_task k (t ∷ ts) = if t.id == k then some t else find_task k ts

abbrev pub dict_of : Option TaskRecord → Option TaskDict
dict_of none = none
dict_of (some t) = some (task_to_dict t)

find_task-upsert_task :
    (k : String) (d : TaskDict) (ts : List TaskDict)
    → find_task k (upsert_task d ts) ≡ (if d.id == k then some d else find_task k ts)
unfolding find_task upsert_task
find_task-upsert_task k d [] = refl
find_task-upsert_task k d (t ∷ ts) =
    ground (arith, eq_iff d.id k, eq_iff t.id k, eq_iff t.id d.id, find_task-upsert_task k d ts)

abbrev pub Same : List TaskDict → Dict TaskRecord → Type 0
Same ts d = (k : String) → find_task k ts ≡ dict_of (lookup k d)

upsert_task-insert :
    (t : TaskRecord) (ts : List TaskDict) (d : Dict TaskRecord)
    → Same ts d
    → Same (upsert_task (task_to_dict t) ts) (insert t.id t d)
upsert_task-insert t ts d h k =
    ground (arith, find_task-upsert_task k (task_to_dict t) ts, lookup-insert t.id k t d, h k)

-- what `task_exited` does to the records
task_exited-insert :
    (x : Exit) (t : TaskRecord) (o : Orchestrator)
    → (t' : TaskRecord) × (t'.id ≡ t.id)
      × ((task_exited x t o).tasks ≡ insert t.id t' o.tasks)
      × ((task_exited x t o).effects ≡ o.effects)
unfolding task_exited maybe_retry_task
task_exited-insert x t o = elim (Bool-cases (is_success x.returncode)) [
  | inl success ↦ rw success (_, refl, refl, refl)
  | inr failure ↦ rw failure (elim (Bool-cases (ltb_ℤ t.retries t.max_retries)) [
    | inl more ↦ rw more (_, refl, refl, refl)
    | inr last ↦ rw last (_, refl, refl, refl)
  ])
]

abbrev freed : String → Handle → Orchestrator → Orchestrator
freed w h o = record o {
  active_handles = remove w o.active_handles;
  task_worker_map = remove h.task_id o.task_worker_map;
}

-- No spawn of the turn is refused.
abbrev pub Accepts : Turn → Type 0
Accepts turn = (k : String) → (pid : ℕ) × ((turn.spawns k).result ≡ started pid)

-- None of the turns of the run has a refused spawn.
abbrev pub AllAccept : {o o' : Orchestrator} → Reach o o' → Type 0
AllAccept here = Unit
AllAccept (turns turn r fresh h) = AllAccept r × Accepts turn
AllAccept (signals s r) = AllAccept r

module _ (m : Money) (stamps : ℕ → Stamp m) (b0 : Body m) where
  -- Each task's dictionary in the written body is that of its record.
  pub record Mirrors (o : Orchestrator) : Type 0 where
    pub same :
        (k : String) → find_task k (replay m stamps o.effects b0).tasks ≡ dict_of (lookup k o.tasks)

  spawned-Mirrors :
      (a : Answer) (pid : ℕ) (t : TaskRecord) (o : Orchestrator)
      → Mirrors o
      → Mirrors (spawned a pid t o)
  unfolding spawned replay mutate
  spawned-Mirrors a pid t o i = record {
    same = upsert_task-insert _ (replay m stamps o.effects b0).tasks o.tasks i.same;
  }

  poll_worker-Mirrors :
      (p : Poll) (w : String) (o : Orchestrator) → Mirrors o → Mirrors (poll_worker p w o)
  unfolding poll_worker replay mutate
  poll_worker-Mirrors p w o i = elim (Bool-cases p.kill_candidate) [
    | inl kill ↦ rw kill (elim (Bool-cases p.over_global) [
      | inl over ↦ rw over (record { same = i.same })
      | inr under ↦ rw under (record { same = i.same })
    ])
    | inr spare ↦ rw spare (elim (Bool-cases p.over_global) [
      | inl over ↦ rw over (record { same = i.same })
      | inr under ↦ rw under i
    ])
  ]

  poll_workers-Mirrors :
      (polls : String → Poll) (ws : List String) (o : Orchestrator)
      → Mirrors o
      → Mirrors (poll_workers polls ws o)
  unfolding poll_workers
  poll_workers-Mirrors polls [] o i = i
  poll_workers-Mirrors polls (w ∷ ws) o i =
      poll_workers-Mirrors polls ws (poll_worker (polls w) w o)
        (poll_worker-Mirrors (polls w) w o i)

  report_exit-Mirrors :
      (w : String) (h : Handle) (x : Exit) (t : TaskRecord) (o o' : Orchestrator)
      → t.id ≡ h.task_id
      → o'.tasks ≡ insert t.id t o.tasks
      → o'.effects ≡ o.effects
      → Mirrors o
      → Mirrors (report_exit w h x o')
  unfolding report_exit replay mutate
  report_exit-Mirrors w h x t o o' key tasks effects i =
      let found : lookup h.task_id o'.tasks ≡ some t =
        ground (arith, tasks, key, lookup-insert t.id h.task_id t o.tasks, eq_iff t.id h.task_id) in
      rw found (record {
        same =
            rw (tasks, effects)
              (upsert_task-insert t (replay m stamps o.effects b0).tasks o.tasks i.same);
      })

  close_worker-Mirrors :
      (w : String) (h : Option Handle) (x : Exit) (o : Orchestrator)
      → Inv o
      → Mirrors o
      → Mirrors (close_worker w h x o)
  unfolding close_worker close_task
  close_worker-Mirrors w none x o i c = c
  close_worker-Mirrors w (some h) x o i c = elim (Option-cases (lookup h.task_id o.tasks)) [
    | inl missing ↦ rw missing (record { same = c.same })
    | inr (t, found) ↦
        let (t', key, tasks, effects) = task_exited-insert x t (freed w h o) in
        rw found (
          report_exit-Mirrors w h x t' (freed w h o) _ (key ∙ i.keyed h.task_id t found)
            (cc (tasks, key)) effects (record { same = c.same }))
  ]

  process_exits-Mirrors :
      (exits : String → Exit) (ws : List String) (o : Orchestrator)
      → Inv o
      → Mirrors o
      → Mirrors (process_exits exits ws o)
  unfolding process_exits process_worker_exit
  process_exits-Mirrors exits [] o i c = c
  process_exits-Mirrors exits (w ∷ ws) o i c =
      process_exits-Mirrors exits ws (process_worker_exit w (exits w) o)
        (process_worker_exit-Inv w (exits w) o i)
        (close_worker-Mirrors w (lookup w o.active_handles) (exits w) o i c)

  module _ (env : String → Answer)
      (accepts : (k : String) → (pid : ℕ) × ((env k).result ≡ started pid)) where
    spawn_each-Mirrors :
        (ts : List TaskRecord) (o o' : Orchestrator)
        → spawn_each env ts o ≡ returns o'
        → Mirrors o
        → Mirrors o'
    unfolding spawn_each
    spawn_each-Mirrors [] o o' h c = subst Mirrors {x = o} {y = o'} (cc h) c
    spawn_each-Mirrors (t ∷ ts) o o' h c = elim (Bool-cases (is_full o)) [
      | inl full ↦ subst Mirrors {x = o} {y = o'} (cc (full, h)) c
      | inr room ↦
          let (o1, h1, h2) =
            >>=-returns (spawn_task env t o) (spawn_each env ts) {b = o'} (cc (room, h)) in
          elim (spawn_task-settle env t o o1 h1) [
            | inl same ↦ spawn_each-Mirrors ts o o' (cc (same, h2)) c
            | inr (idle, done) ↦
                let (pid, accepted) = accepts t.id in
                spawn_each-Mirrors ts (settle (env t.id) (started pid) t o) o'
                  (cc (done, h2, accepted)) (spawned-Mirrors (env t.id) pid t o c)
          ]
    ]

    spawn_ready_workers-Mirrors :
        (now : ℕ) (o o' : Orchestrator)
        → spawn_ready_workers now env o ≡ returns o'
        → Mirrors o
        → Mirrors o'
    unfolding spawn_ready_workers
    spawn_ready_workers-Mirrors now o o' h c = elim (Bool-cases (is_full o)) [
      | inl full ↦ subst Mirrors {x = o} {y = o'} (cc (full, h)) c
      | inr room ↦
          spawn_each-Mirrors (sort_by_priority (get_ready_tasks now o)) o o' (cc (room, h)) c
    ]

  work-Mirrors :
      (turn : Turn) (o o' : Orchestrator)
      → Fresh turn.spawns o
      → Accepts turn
      → work turn o ≡ returns o'
      → Inv o
      → Mirrors o
      → Mirrors o'
  unfolding work
  work-Mirrors turn o o' fresh accepts h i c =
      let (o1, h1, h2) = work-returns turn o o' h in
      let ws = keys o1.active_handles in
      let o2 = poll_workers turn.polls ws o1 in
      let i2 =
        poll_workers-Inv turn.polls ws o1
          (spawn_ready_workers-Inv turn.now turn.spawns o o1 fresh h1 i) in
      subst Mirrors {x = process_exits turn.exits (exited turn.polls ws) o2} {y = o'} (cc h2) (
        process_exits-Mirrors turn.exits (exited turn.polls ws) o2 i2 (
          poll_workers-Mirrors turn.polls ws o1
            (spawn_ready_workers-Mirrors turn.spawns accepts turn.now o o1 h1 c)))

  pub Reach-Mirrors :
      (o o' : Orchestrator) (r : Reach o o') → AllAccept r → Inv o → Mirrors o → Mirrors o'
  unfolding handle_signal
  Reach-Mirrors o _ here a i c = c
  Reach-Mirrors o o' (turns turn r fresh h) a i c =
      work-Mirrors turn _ o' fresh a.1 (round-work turn _ o' h) (Reach-Inv o _ i r)
        (Reach-Mirrors o _ r a.0 i c)
  Reach-Mirrors o _ (signals sigint r) a i c = record { same = (Reach-Mirrors o _ r a i c).same }
  Reach-Mirrors o _ (signals sigterm r) a i c = record { same = (Reach-Mirrors o _ r a i c).same }
