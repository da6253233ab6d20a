-- ===== src/Orchestrator/Outcome.antt =====
-- What it means that the loop stops with the exit code 0.
use tab_conductor.Prelude.{
  String, ◌≡◌, refl, ◌≢◌, Bool, true, some, List, [], ◌∷◌, arith, Bool-cases, inl, inr, All, subst,
  ◌∙◌,
}
use tab_conductor.Prelude.Call.{Call, returns, raises}
use tab_conductor.Dict.{Dict, lookup, keys, HasDistinctKeys-lookup}
use tab_conductor.Plan
use tab_conductor.Orchestrator.State.{
  TaskStatus, TaskRecord, Config, Orchestrator, OrchestratorError, new, RunStatus, set_status, emit,
  Effect, interrupt, terminate,
}
use tab_conductor.Orchestrator.Ready.{is_done, is_terminal, all_terminal, all_done}
use tab_conductor.Orchestrator.Round.{
  Turn, stopped, do_halt, signal_each, alive_of, finalize, round, start, continue, work,
}
use tab_conductor.Orchestrator.Invariant.{Inv}
use tab_conductor.Orchestrator.Reach.{Reach}
use tab_conductor.Orchestrator.Initial.{IsUnstarted, run-Inv}

-- Every task of the orchestrator is done.
abbrev pub AreDone : Dict TaskRecord → Type 0
AreDone d = All (λ e. e.1.status ≡ TaskStatus.done) d

is_terminal-done :
    (s : TaskStatus) → is_terminal s ≡ true → s ≢ TaskStatus.terminal → s ≡ TaskStatus.done
unfolding is_terminal
is_terminal-done TaskStatus.done h n = refl
is_terminal-done TaskStatus.terminal h n = ground (arith, n refl)
is_terminal-done _ h n = cc h

all_terminal-AreDone :
    (o : Orchestrator) (i : Inv o) (d : Dict TaskRecord)
    → All (λ e. lookup e.0 o.tasks ≡ some e.1) d
    → o.exit_code ≡ 0
    → all_terminal d ≡ true
    → AreDone d
unfolding all_terminal
all_terminal-AreDone o i [] h z a = tt
all_terminal-AreDone o i ((k, t) ∷ d) h z a = (
  is_terminal-done t.status (ground arith) (λ e. i.reported k (cc (h.0, e)) z),
  all_terminal-AreDone o i d h.1 z (ground arith),
)

signal_each-exit_code :
    (signal : String → Effect) (ws : List String) (o : Orchestrator)
    → (signal_each signal ws o).exit_code ≡ o.exit_code
unfolding signal_each
signal_each-exit_code signal [] o = refl
signal_each-exit_code signal (w ∷ ws) o = signal_each-exit_code signal ws (emit (signal w) o)

do_halt-exit_code :
    (survivors : String → Bool) (o : Orchestrator) → (do_halt survivors o).exit_code ≡ o.exit_code
unfolding do_halt
do_halt-exit_code survivors o =
    signal_each-exit_code (λ w. terminate w) (alive_of survivors (keys o.active_handles)) _
    ∙ signal_each-exit_code (λ w. interrupt w) (keys o.active_handles) _

AreDone-all_done : (d : Dict TaskRecord) → AreDone d → all_done d ≡ true
unfolding all_done is_done
AreDone-all_done [] h = refl
AreDone-all_done ((k, t) ∷ d) h = ground (arith, h.0, AreDone-all_done d h.1)

-- how a run with the exit code 0 has ended: every task is done, and so the last status says
pub record IsComplete (o : Orchestrator) : Type 0 where
  pub tasks : AreDone o.tasks
  pub status : (es : List Effect) × (o.effects ≡ set_status RunStatus.completed ∷ es)

finalize-IsComplete :
    (o : Orchestrator)
    → Inv o
    → all_terminal o.tasks ≡ true
    → o.exit_code ≡ 0
    → IsComplete (finalize o)
unfolding finalize
finalize-IsComplete o i a z =
    let done = all_terminal-AreDone o i o.tasks (HasDistinctKeys-lookup o.tasks i.distinct) z a in
    record { tasks = done; status = (o.effects, rw (AreDone-all_done o.tasks done) refl) }

finalize-exit_code : (o : Orchestrator) → (finalize o).exit_code ≡ o.exit_code
unfolding finalize
finalize-exit_code o = refl

pub continue-stopped :
    {A : Type 0} (c : Call OrchestratorError Orchestrator) (o : Orchestrator)
    → continue c ≡ returns (stopped o)
    → A
continue-stopped (returns o') o h = cc h
continue-stopped (raises e) o h = cc h

round-IsComplete :
    (turn : Turn) (o o' : Orchestrator)
    → Inv o
    → round turn o ≡ returns (stopped o')
    → o'.exit_code ≡ 0
    → IsComplete o'
unfolding round
round-IsComplete turn o o' i h z = elim (Bool-cases o.halt_event) [
  | inl halted ↦
      ground (arith, i.halted halted (cc (do_halt-exit_code turn.survivors o, halted, h, z)))
  | inr running ↦ elim (Bool-cases (all_terminal o.tasks)) [
    | inl over ↦
        subst IsComplete {x = finalize o} {y = o'} (cc (running, over, h))
          (finalize-IsComplete o i over (cc (finalize-exit_code o, running, over, h, z)))
    | inr more ↦ continue-stopped (work turn o) o' (cc (running, more, h))
  ]
]

-- If no task of the plan has a status or retries of its own or a negative max_retries, the
-- orchestrator is new, its loop gets into a state by turns in which each new worker has a new id and
-- by signals, the next turn stops the loop, and the exit code is 0 then, then every task is done and
-- the last status written is completed.
pub run-IsComplete :
    (config : Config) (ts : List Plan.Task) (o o1 o2 : Orchestrator) (turn : Turn)
    → All IsUnstarted ts
    → new config ts ≡ returns o
    → Reach (start o) o1
    → round turn o1 ≡ returns (stopped o2)
    → o2.exit_code ≡ 0
    → IsComplete o2
run-IsComplete config ts o o1 o2 turn us h r =
    round-IsComplete turn o1 o2 (run-Inv config ts o o1 us h r)
