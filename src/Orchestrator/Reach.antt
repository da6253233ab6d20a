-- ===== src/Orchestrator/Reach.antt =====
-- The runs of the loop: turns, in which each new worker has a new id, and signals between them.
use tab_conductor.Prelude.{String, ◌≡◌, List, [], ◌∷◌, Bool-cases, inl, inr, subst}
use tab_conductor.Prelude.Call.{Call, returns, raises}
use tab_conductor.Dict.{keys}
use tab_conductor.Orchestrator.State.{Orchestrator, OrchestratorError}
use tab_conductor.Orchestrator.Ready.{all_terminal}
use tab_conductor.Orchestrator.Exit.{Exit, process_worker_exit}
use tab_conductor.Orchestrator.Work.{work-returns}
use tab_conductor.Orchestrator.Round.{
  Poll, Turn, Signal, sigint, sigterm, again, poll_worker, poll_workers, exited, process_exits,
  start, handle_signal, work, continue, round,
}
use tab_conductor.Orchestrator.Invariant.{Inv, Inv-effects, Inv-halt}
use tab_conductor.Orchestrator.Steps.{process_worker_exit-Inv}
use tab_conductor.Orchestrator.Dispatch.{Fresh, spawn_ready_workers-Inv}

poll_worker-Inv : (p : Poll) (w : String) (o : Orchestrator) → Inv o → Inv (poll_worker p w o)
unfolding poll_worker
poll_worker-Inv p w o i = elim (Bool-cases p.kill_candidate) [
  | inl kill ↦ rw kill (elim (Bool-cases p.over_global) [
    | inl over ↦ rw over (Inv-effects _ {o = o} i)
    | inr under ↦ rw under (Inv-effects _ {o = o} i)
  ])
  | inr spare ↦ rw spare (elim (Bool-cases p.over_global) [
    | inl over ↦ rw over (Inv-effects _ {o = o} i)
    | inr under ↦ rw under i
  ])
]

pub poll_workers-Inv :
    (polls : String → Poll) (ws : List String) (o : Orchestrator)
    → Inv o
    → Inv (poll_workers polls ws o)
unfolding poll_workers
poll_workers-Inv polls [] o i = i
poll_workers-Inv polls (w ∷ ws) o i =
    poll_workers-Inv polls ws (poll_worker (polls w) w o) (poll_worker-Inv (polls w) w o i)

pub process_exits-Inv :
    (exits : String → Exit) (ws : List String) (o : Orchestrator)
    → Inv o
    → Inv (process_exits exits ws o)
unfolding process_exits
process_exits-Inv exits [] o i = i
process_exits-Inv exits (w ∷ ws) o i =
    process_exits-Inv exits ws (process_worker_exit w (exits w) o)
      (process_worker_exit-Inv w (exits w) o i)

-- A turn that goes on keeps the invariant.
pub work-Inv :
    (turn : Turn) (o o' : Orchestrator)
    → Fresh turn.spawns o
    → work turn o ≡ returns o'
    → Inv o
    → Inv o'
unfolding work
work-Inv turn o o' fresh h i =
    let (o1, h1, h2) = work-returns turn o o' h in
    subst Inv (cc h2) (
      process_exits-Inv turn.exits (exited turn.polls (keys o1.active_handles)) _ (
        poll_workers-Inv turn.polls (keys o1.active_handles) o1
          (spawn_ready_workers-Inv turn.now turn.spawns o o1 fresh h1 i)))

handle_signal-Inv : (s : Signal) (o : Orchestrator) → Inv o → Inv (handle_signal s o)
unfolding handle_signal
handle_signal-Inv sigint o i = Inv-halt 130 (λ e. cc e) i
handle_signal-Inv sigterm o i = Inv-halt 1 (λ e. cc e) i

-- The states the loop gets into from `o`.
pub data Reach (o : Orchestrator) : Orchestrator → Type 0 where
  here : Reach o o
  turns :
      {o1 o2 : Orchestrator} (turn : Turn)
      → Reach o o1
      → Fresh turn.spawns o1
      → round turn o1 ≡ returns (again o2)
      → Reach o o2
  signals : {o1 : Orchestrator} (s : Signal) → Reach o o1 → Reach o (handle_signal s o1)

continue-again :
    (c : Call OrchestratorError Orchestrator) (o : Orchestrator)
    → continue c ≡ returns (again o)
    → c ≡ returns o
continue-again (returns o') o h = cc h
continue-again (raises e) o h = cc h

-- the turn that `round` makes when it goes on
pub round-work :
    (turn : Turn) (o o' : Orchestrator)
    → round turn o ≡ returns (again o')
    → work turn o ≡ returns o'
unfolding round
round-work turn o o' h = elim (Bool-cases o.halt_event) [
  | inl halted ↦ cc (halted, h)
  | inr running ↦ elim (Bool-cases (all_terminal o.tasks)) [
    | inl over ↦ cc (running, over, h)
    | inr more ↦ continue-again (work turn o) o' (cc (running, more, h))
  ]
]

pub Reach-Inv : (o o' : Orchestrator) → Inv o → Reach o o' → Inv o'
Reach-Inv o _ i here = i
Reach-Inv o o' i (turns turn r fresh h) =
    work-Inv turn _ o' fresh (round-work turn _ o' h) (Reach-Inv o _ i r)
Reach-Inv o _ i (signals s r) = handle_signal-Inv s _ (Reach-Inv o _ i r)

pub start-Inv : (o : Orchestrator) → Inv o → Inv (start o)
unfolding start
start-Inv o i = Inv-effects _ {o = o} i
