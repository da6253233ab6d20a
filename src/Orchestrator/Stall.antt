-- ===== src/Orchestrator/Stall.antt =====
-- A task that waits for one that was given up.
use tab_conductor.Prelude.{
  ℕ, String, ◌≡◌, ◌≢◌, true, false, some, [], ◌∷◌, arith, ◌==◌, eq_iff, Bool-cases, inl, inr, All,
  All-map, contains,
}
use tab_conductor.Prelude.Call.{returns}
use tab_conductor.Dict.{Dict, lookup, HasDistinctKeys-lookup}
use tab_conductor.Orchestrator.State.{TaskStatus, TaskRecord, Orchestrator}
use tab_conductor.Orchestrator.Ready.{
  is_ready, is_terminal, is_pending, ready_among, get_ready_tasks, all_terminal,
}
use tab_conductor.Orchestrator.Spawn.{Answer}
use tab_conductor.Orchestrator.Round.{Turn, stopped, work, round, handle_signal, sigint, sigterm}
use tab_conductor.Orchestrator.Invariant.{status_at, Inv}
use tab_conductor.Orchestrator.Dispatch.{Fresh, is_ready-Candidate}
use tab_conductor.Orchestrator.Reach.{Reach, here, turns, signals, round-work, Reach-Inv}
use tab_conductor.Orchestrator.Outcome.{continue-stopped}
use tab_conductor.Orchestrator.Frame.{work-lookup}

-- The task `k` is pending and depends on `dep`, which was given up.
pub record IsBlocked (k dep : String) (o : Orchestrator) : Type 0 where
  pub task : TaskRecord
  pub found : lookup k o.tasks ≡ some task
  pub pending : task.status ≡ TaskStatus.pending
  pub waits : contains dep task.depends_on ≡ true
  pub given_up : status_at o.tasks dep ≡ some TaskStatus.terminal

module _ (now : ℕ) (env : String → Answer) (k dep : String) (o : Orchestrator) (i : Inv o)
    (fresh : Fresh env o) (b : IsBlocked k dep o) where
  -- Neither of the two is ready.
  is_ready-other :
      (e : String) (t : TaskRecord)
      → lookup e o.tasks ≡ some t
      → is_ready now o t ≡ true
      → ((t.id == k) ≡ false) × ((t.id == dep) ≡ false)
  unfolding is_ready is_pending
  is_ready-other e t found h =
      let c = is_ready-Candidate now env o i fresh e t found h in
      (
        ground
            (arith, found, i.keyed e t, eq_iff t.id k, b.found, b.waits, b.given_up, c.ready dep),
        ground (arith, found, i.keyed e t, eq_iff t.id dep, b.given_up, h),
      )

  ready_among-other :
      (d : Dict TaskRecord)
      → All (λ e. lookup e.0 o.tasks ≡ some e.1) d
      → All
          (λ (t : TaskRecord). ((t.id == k) ≡ false) × ((t.id == dep) ≡ false))
          (ready_among now o d)
  unfolding ready_among
  ready_among-other [] h = tt
  ready_among-other ((e, t) ∷ d) h = elim (Bool-cases (is_ready now o t)) [
    | inl ready ↦ rw ready (is_ready-other e t h.0 ready, ready_among-other d h.1)
    | inr other ↦ rw other (ready_among-other d h.1)
  ]

  get_ready_tasks-other :
      All
        (λ (t : TaskRecord). ((t.id == k) ≡ false) × ((t.id == dep) ≡ false))
        (get_ready_tasks now o)
  unfolding get_ready_tasks
  get_ready_tasks-other = ready_among-other o.tasks (HasDistinctKeys-lookup o.tasks i.distinct)

work-IsBlocked :
    (turn : Turn) (k dep : String) (o o' : Orchestrator)
    → Fresh turn.spawns o
    → Inv o
    → IsBlocked k dep o
    → work turn o ≡ returns o'
    → IsBlocked k dep o'
work-IsBlocked turn k dep o o' fresh i b h =
    let others = get_ready_tasks-other turn.now turn.spawns k dep o i fresh b in
    let at_k =
      work-lookup k turn o o' fresh i (λ e. ground (arith, e, b.found, b.pending))
        (All-map (get_ready_tasks turn.now o) (λ t n. n.0) others) h in
    let at_dep =
      work-lookup dep turn o o' fresh i (λ e. ground (arith, e, b.given_up))
        (All-map (get_ready_tasks turn.now o) (λ t n. n.1) others) h in
    record {
      task = b.task;
      found = cc (at_k, b.found);
      pending = b.pending;
      waits = b.waits;
      given_up = cc (at_dep, b.given_up);
    }

Reach-IsBlocked :
    (k dep : String) (o o' : Orchestrator)
    → Inv o
    → IsBlocked k dep o
    → Reach o o'
    → IsBlocked k dep o'
unfolding handle_signal
Reach-IsBlocked k dep o _ i b here = b
Reach-IsBlocked k dep o o' i b (turns turn r fresh h) =
    work-IsBlocked turn k dep _ o' fresh (Reach-Inv o _ i r) (Reach-IsBlocked k dep o _ i b r)
      (round-work turn _ o' h)
Reach-IsBlocked k dep o _ i b (signals sigint r) =
    let c = Reach-IsBlocked k dep o _ i b r in
    record {
      task = c.task;
      found = c.found;
      pending = c.pending;
      waits = c.waits;
      given_up = c.given_up;
    }
Reach-IsBlocked k dep o _ i b (signals sigterm r) =
    let c = Reach-IsBlocked k dep o _ i b r in
    record {
      task = c.task;
      found = c.found;
      pending = c.pending;
      waits = c.waits;
      given_up = c.given_up;
    }

all_terminal-lookup :
    (k : String) (t : TaskRecord) (d : Dict TaskRecord)
    → lookup k d ≡ some t
    → all_terminal d ≡ true
    → is_terminal t.status ≡ true
unfolding lookup all_terminal
all_terminal-lookup k t [] found h = cc found
all_terminal-lookup k t ((j, u) ∷ d) found h = ground (arith, found, h, all_terminal-lookup k t d)

-- If a task is pending and depends on one that was given up, the invariant holds, and the loop gets
-- from there, by turns in which each new worker has a new id and by signals, into a state with no
-- halt requested, then the next turn does not stop the loop.
pub round-blocked :
    (k dep : String) (o o1 o2 : Orchestrator) (turn : Turn)
    → Inv o
    → IsBlocked k dep o
    → Reach o o1
    → o1.halt_event ≡ false
    → round turn o1 ≢ returns (stopped o2)
unfolding round is_terminal
round-blocked k dep o o1 o2 turn i b r running h =
    let c = Reach-IsBlocked k dep o o1 i b r in
    elim (Bool-cases (all_terminal o1.tasks)) [
      | inl over ↦ ground (arith, c.pending, all_terminal-lookup k c.task o1.tasks c.found over)
      | inr more ↦ continue-stopped (work turn o1) o2 (cc (running, more, h))
    ]
