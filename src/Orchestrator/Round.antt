-- ===== src/Orchestrator/Round.antt =====
-- One turn of `_supervisor_loop`, `_finalize`, `_do_halt` and `_handle_signal`.
use tab_conductor.Prelude.{ℕ, String, Bool, true, false, ◌||◌, List, [], ◌∷◌, if◌then◌else◌}
use tab_conductor.Prelude.Call.{Call, returns, raises, ◌>>=◌}
use tab_conductor.Dict.{keys}
use tab_conductor.Orchestrator.State.{
  Orchestrator, OrchestratorError, RunStatus, Effect, set_status, stuck_event, escalate, interrupt,
  terminate, emit, poll_failed,
}
use tab_conductor.Orchestrator.Ready.{all_terminal, all_done}
use tab_conductor.Orchestrator.Spawn.{Answer, spawn_ready_workers}
use tab_conductor.Orchestrator.Exit.{Exit, process_worker_exit}

-- What the poll of one worker sees after `poll_once`.
pub record Poll : Type 0 where
  pub over_global : Bool
  pub kill_candidate : Bool
  pub alive : Bool

pub record Turn : Type 0 where
  -- the monotonic clock in `_get_ready_tasks`
  pub now : ℕ
  pub spawns : String → Answer
  -- whether the poll of a worker raises, see Runner/Returns.antt
  pub fails : String → Bool
  pub polls : String → Poll
  pub exits : String → Exit
  -- who is alive after the wait in `_do_halt`
  pub survivors : String → Bool

-- the guards' verdicts on one worker
unfoldable pub poll_worker : Poll → String → Orchestrator → Orchestrator
poll_worker p w o =
    let o1 = if p.over_global then emit (escalate w) o else o in
    if p.kill_candidate then emit (stuck_event w) (emit (escalate w) o1) else o1

unfoldable pub poll_workers : (String → Poll) → List String → Orchestrator → Orchestrator
poll_workers polls [] o = o
poll_workers polls (w ∷ ws) o = poll_workers polls ws (poll_worker (polls w) w o)

-- completed_workers
unfoldable pub exited : (String → Poll) → List String → List String
exited polls [] = []
exited polls (w ∷ ws) = let rest = exited polls ws in if (polls w).alive then rest else w ∷ rest

unfoldable pub process_exits : (String → Exit) → List String → Orchestrator → Orchestrator
process_exits exits [] o = o
process_exits exits (w ∷ ws) o = process_exits exits ws (process_worker_exit w (exits w) o)

-- the start of `run`
unfoldable pub start : Orchestrator → Orchestrator
start o = emit (set_status RunStatus.running) o

unfoldable pub finalize : Orchestrator → Orchestrator
finalize o =
    emit (set_status (if all_done o.tasks then RunStatus.completed else RunStatus.failed)) o

unfoldable pub signal_each : (String → Effect) → List String → Orchestrator → Orchestrator
signal_each signal [] o = o
signal_each signal (w ∷ ws) o = signal_each signal ws (emit (signal w) o)

unfoldable pub alive_of : (String → Bool) → List String → List String
alive_of alive [] = []
alive_of alive (w ∷ ws) = let rest = alive_of alive ws in if alive w then w ∷ rest else rest

unfoldable pub do_halt : (String → Bool) → Orchestrator → Orchestrator
do_halt survivors o =
    let workers = keys o.active_handles in
    let o1 = signal_each interrupt workers (emit (set_status RunStatus.halting) o) in
    let o2 = signal_each terminate (alive_of survivors workers) o1 in
    emit (set_status RunStatus.halted) (record o2 { active_handles = [] })

pub data Signal : Type 0 where
  sigint sigterm : Signal

unfoldable pub handle_signal : Signal → Orchestrator → Orchestrator
handle_signal sigint o = record o { exit_code = 130; halt_event = true }
handle_signal sigterm o = record o { exit_code = 1; halt_event = true }

-- The loop breaks with a final state, or goes on.
pub data Progress : Type 0 where
  stopped : Orchestrator → Progress
  again : Orchestrator → Progress

unfoldable pub any_fails : (String → Bool) → List String → Bool
any_fails fails [] = false
any_fails fails (w ∷ ws) = fails w || any_fails fails ws

-- the turn from the polls on; an exception of one of them ends the loop
abbrev pub poll_and_close : Turn → Orchestrator → Call OrchestratorError Orchestrator
poll_and_close turn o =
    let ws = keys o.active_handles in
    if any_fails turn.fails ws
    then raises poll_failed
    else returns (process_exits turn.exits (exited turn.polls ws) (poll_workers turn.polls ws o))

unfoldable pub work : Turn → Orchestrator → Call OrchestratorError Orchestrator
work turn o = spawn_ready_workers turn.now turn.spawns o >>= poll_and_close turn

abbrev pub continue : Call OrchestratorError Orchestrator → Call OrchestratorError Progress
continue (returns o) = returns (again o)
continue (raises e) = raises e

unfoldable pub round : Turn → Orchestrator → Call OrchestratorError Progress
round turn o =
    if o.halt_event
    then returns (stopped (do_halt turn.survivors o))
    else if all_terminal o.tasks
    then returns (stopped (finalize o))
    else continue (work turn o)
