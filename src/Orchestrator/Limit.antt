-- ===== src/Orchestrator/Limit.antt =====
-- The bound on the number of workers that are active at the same time.
use tab_conductor.Prelude.{
  ℕ, suc, ◌≤◌, ◌≡◌, refl, String, false, Option-cases, List, [], ◌∷◌, arith, length, subst,
  Bool-cases, inl, inr, Option, none, some, ◌+◌,
}
use tab_conductor.Prelude.Int.{pos, ◌≤ℤ◌}
use tab_conductor.Prelude.Call.{returns, >>=-returns}
use tab_conductor.Dict.{Dict, insert, remove, lookup, keys}
use tab_conductor.Orchestrator.State.{TaskRecord, Handle, Config, Orchestrator, new}
use tab_conductor.Orchestrator.Retry.{maybe_retry_task, ltb_ℤ}
use tab_conductor.Orchestrator.Ready.{sort_by_priority, get_ready_tasks}
use tab_conductor.Orchestrator.Spawn.{
  Answer, SpawnResult, started, refused, is_full, spawned, not_spawned, settle, spawn_task,
  spawn_each, spawn_ready_workers,
}
use tab_conductor.Orchestrator.Exit.{
  Exit, task_exited, report_exit, close_task, close_worker, process_worker_exit, is_success,
  emit_task,
}
use tab_conductor.Orchestrator.Work.{work-returns}
use tab_conductor.Orchestrator.Round.{
  Poll, Turn, poll_worker, poll_workers, exited, process_exits, work, start, handle_signal, sigint,
  sigterm,
}
use tab_conductor.Orchestrator.Dispatch.{spawn_task-settle}
use tab_conductor.Orchestrator.Reach.{Reach, here, turns, signals, round-work}
use tab_conductor.Orchestrator.Initial.{idle, new-idle}
use tab_conductor.Plan

length-insert :
    {V : Type 0} (k : String) (v : V) (d : Dict V) → length (insert k v d) ≤ suc (length d)
unfolding insert
length-insert k v [] = ground arith
length-insert k v ((j, w) ∷ d) = ground (arith, length-insert k v d)

length-remove : {V : Type 0} (k : String) (d : Dict V) → length (remove k d) ≤ length d
unfolding remove
length-remove k [] = ground arith
length-remove k ((j, w) ∷ d) = ground (arith, length-remove k d)

-- No more workers are active than the configuration allows.
abbrev pub IsWithinLimit : Orchestrator → Type 0
IsWithinLimit o = pos (length o.active_handles) ≤ℤ o.config.max_parallel

-- `o'` has the configuration of `o` and at most `n` more workers
record Grows (n : ℕ) (o o' : Orchestrator) : Type 0 where
  config : o'.config ≡ o.config
  handles : length o'.active_handles ≤ n + length o.active_handles

maybe_retry_task-Grows :
    (clock : ℕ) (t : TaskRecord) (o : Orchestrator) → Grows 0 o (maybe_retry_task clock t o)
unfolding maybe_retry_task
maybe_retry_task-Grows clock t o = elim (Bool-cases (ltb_ℤ t.retries t.max_retries)) [
  | inl more ↦ rw more (record { config = refl; handles = omega arith })
  | inr last ↦ rw last (record { config = refl; handles = omega arith })
]

settle-Grows :
    (a : Answer) (r : SpawnResult) (t : TaskRecord) (o : Orchestrator) → Grows 1 o (settle a r t o)
unfolding spawned not_spawned
settle-Grows a (started pid) t o = record {
  config = refl;
  handles =
      omega
        (arith, length-insert a.worker_id (record { task_id = t.id; pid = pid }) o.active_handles);
}
settle-Grows a (refused message) t o =
    let g = maybe_retry_task-Grows a.clock _ o in
    record { config = g.config; handles = omega (arith, g.handles) }

Grows-limit : (o o' : Orchestrator) → Grows 1 o o' → is_full o ≡ false → IsWithinLimit o'
unfolding is_full
Grows-limit o o' g room = ground (arith, g.config, g.handles)

spawn_each-limit :
    (env : String → Answer) (ts : List TaskRecord) (o o' : Orchestrator)
    → spawn_each env ts o ≡ returns o'
    → IsWithinLimit o
    → IsWithinLimit o'
unfolding spawn_each
spawn_each-limit env [] o o' h l = subst IsWithinLimit {x = o} {y = o'} (cc h) l
spawn_each-limit env (t ∷ ts) o o' h l = elim (Bool-cases (is_full o)) [
  | inl full ↦ subst IsWithinLimit {x = o} {y = o'} (cc (full, h)) l
  | inr room ↦
      let (o1, h1, h2) =
        >>=-returns (spawn_task env t o) (spawn_each env ts) {b = o'} (cc (room, h)) in
      elim (spawn_task-settle env t o o1 h1) [
        | inl same ↦ spawn_each-limit env ts o o' (cc (same, h2)) l
        | inr (idle, done) ↦
            spawn_each-limit env ts (settle (env t.id) (env t.id).result t o) o' (cc (done, h2))
              (Grows-limit o _ (settle-Grows (env t.id) (env t.id).result t o) room)
      ]
]

spawn_ready_workers-limit :
    (now : ℕ) (env : String → Answer) (o o' : Orchestrator)
    → spawn_ready_workers now env o ≡ returns o'
    → IsWithinLimit o
    → IsWithinLimit o'
unfolding spawn_ready_workers
spawn_ready_workers-limit now env o o' h l = elim (Bool-cases (is_full o)) [
  | inl full ↦ subst IsWithinLimit {x = o} {y = o'} (cc (full, h)) l
  | inr room ↦ spawn_each-limit env (sort_by_priority (get_ready_tasks now o)) o o' (cc (room, h)) l
]

keep-limit : (o o' : Orchestrator) → Grows 0 o o' → IsWithinLimit o → IsWithinLimit o'
keep-limit o o' g l = ground (arith, g.config, g.handles)

task_exited-Grows : (x : Exit) (t : TaskRecord) (o : Orchestrator) → Grows 0 o (task_exited x t o)
unfolding task_exited
task_exited-Grows x t o = elim (Bool-cases (is_success x.returncode)) [
  | inl success ↦ rw success (record { config = refl; handles = omega arith })
  | inr failure ↦ rw failure (maybe_retry_task-Grows x.clock _ o)
]

emit_task-Grows : (t : Option TaskRecord) (o : Orchestrator) → Grows 0 o (emit_task t o)
emit_task-Grows none o = record { config = refl; handles = omega arith }
emit_task-Grows (some t) o = record { config = refl; handles = omega arith }

close_worker-Grows :
    (w : String) (h : Option Handle) (x : Exit) (o : Orchestrator)
    → Grows 0 o (close_worker w h x o)
unfolding close_worker close_task report_exit
close_worker-Grows w none x o = record { config = refl; handles = omega arith }
close_worker-Grows w (some h) x o = elim (Option-cases (lookup h.task_id o.tasks)) [
  | inl missing ↦
      rw missing
        (record { config = refl; handles = omega (arith, length-remove w o.active_handles) })
  | inr (t, found) ↦
      let freed = record o {
        active_handles = remove w o.active_handles;
        task_worker_map = remove h.task_id o.task_worker_map;
      } in
      let o1 = task_exited x t freed in
      let g1 = task_exited-Grows x t freed in
      let g2 = emit_task-Grows (lookup h.task_id o1.tasks) o1 in
      rw found (record {
        config = cc (g1.config, g2.config);
        handles = omega (arith, length-remove w o.active_handles, g1.handles, g2.handles);
      })
]

poll_worker-Grows : (p : Poll) (w : String) (o : Orchestrator) → Grows 0 o (poll_worker p w o)
unfolding poll_worker
poll_worker-Grows p w o = elim (Bool-cases p.kill_candidate) [
  | inl kill ↦ rw kill (elim (Bool-cases p.over_global) [
    | inl over ↦ rw over (record { config = refl; handles = omega arith })
    | inr under ↦ rw under (record { config = refl; handles = omega arith })
  ])
  | inr spare ↦ rw spare (elim (Bool-cases p.over_global) [
    | inl over ↦ rw over (record { config = refl; handles = omega arith })
    | inr under ↦ rw under (record { config = refl; handles = omega arith })
  ])
]

poll_workers-limit :
    (polls : String → Poll) (ws : List String) (o : Orchestrator)
    → IsWithinLimit o
    → IsWithinLimit (poll_workers polls ws o)
unfolding poll_workers
poll_workers-limit polls [] o l = l
poll_workers-limit polls (w ∷ ws) o l =
    poll_workers-limit polls ws (poll_worker (polls w) w o)
      (keep-limit o _ (poll_worker-Grows (polls w) w o) l)

process_exits-limit :
    (exits : String → Exit) (ws : List String) (o : Orchestrator)
    → IsWithinLimit o
    → IsWithinLimit (process_exits exits ws o)
unfolding process_exits process_worker_exit
process_exits-limit exits [] o l = l
process_exits-limit exits (w ∷ ws) o l =
    process_exits-limit exits ws (process_worker_exit w (exits w) o)
      (keep-limit o _ (close_worker-Grows w (lookup w o.active_handles) (exits w) o) l)

work-limit :
    (turn : Turn) (o o' : Orchestrator)
    → work turn o ≡ returns o'
    → IsWithinLimit o
    → IsWithinLimit o'
unfolding work
work-limit turn o o' h l =
    let (o1, h1, h2) = work-returns turn o o' h in
    let o2 = poll_workers turn.polls (keys o1.active_handles) o1 in
    let ws = exited turn.polls (keys o1.active_handles) in
    subst IsWithinLimit {x = process_exits turn.exits ws o2} {y = o'} (cc h2) (
      process_exits-limit turn.exits ws o2 (
        poll_workers-limit turn.polls (keys o1.active_handles) o1
          (spawn_ready_workers-limit turn.now turn.spawns o o1 h1 l)))

Reach-limit : (o o' : Orchestrator) → IsWithinLimit o → Reach o o' → IsWithinLimit o'
unfolding handle_signal
Reach-limit o _ l here = l
Reach-limit o o' l (turns turn r fresh h) =
    work-limit turn _ o' (round-work turn _ o' h) (Reach-limit o _ l r)
Reach-limit o _ l (signals sigint r) = Reach-limit o _ l r
Reach-limit o _ l (signals sigterm r) = Reach-limit o _ l r

start-limit : (o : Orchestrator) → IsWithinLimit o → IsWithinLimit (start o)
unfolding start
start-limit o l = l

-- If the orchestrator is new, max_parallel is not negative, and its loop gets into a state by turns
-- in which each new worker has a new id and by signals, then at most max_parallel workers are active
-- in this state.
pub run-limit :
    (config : Config) (ts : List Plan.Task) (o o' : Orchestrator)
    → pos 0 ≤ℤ config.max_parallel
    → new config ts ≡ returns o
    → Reach (start o) o'
    → pos (length o'.active_handles) ≤ℤ o'.config.max_parallel
run-limit config ts o o' bound h r =
    let (d, first) = new-idle config ts o h in
    Reach-limit (start o) o'
      (start-limit o (subst IsWithinLimit {x = idle config d} {y = o} first (ground arith))) r
