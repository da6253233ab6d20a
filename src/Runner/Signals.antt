-- ===== src/Runner/Signals.antt =====
-- The methods of `WorkerHandle` that send signals: `_maybe_escalate`, `kill_escalation`,
-- `graceful_terminate`, `force_terminate` and `kill`. A signal for which the process is gone, or that the
-- system refuses, is recorded as well.
use tab_conductor.Prelude.{
  ℕ, ◌-◌, ◌*◌, Bool, true, false, ◌||◌, Option, none, some, ◌∷◌, ltb, if◌then◌else◌,
}
use tab_conductor.Prelude.Call.{Call, returns, raises}
use tab_conductor.Cost.{
  CostStatus, over_per_worker, over_global, Signal, sigint, sigterm, sigkill, second,
}
use tab_conductor.Cost
use tab_conductor.Stuck.{StuckStatus, live, kill_candidate, MissingWorker, Pgrep}
use tab_conductor.Stuck
use tab_conductor.Runner.Handle.{World, WorkerHandle}

-- _ESCALATION_WAIT_S
abbrev pub escalation_wait : ℕ
escalation_wait = 5 * second

abbrev pub send_pg_signal : {m : _} → Signal → WorkerHandle m → WorkerHandle m
send_pg_signal sig h = record h { signals = sig ∷ h.signals }

abbrev pub graceful_terminate : {m : _} → WorkerHandle m → WorkerHandle m
graceful_terminate h = send_pg_signal sigint h

abbrev pub force_terminate : {m : _} → WorkerHandle m → WorkerHandle m
force_terminate h = send_pg_signal sigterm h

abbrev pub kill : {m : _} → WorkerHandle m → WorkerHandle m
kill h = record (send_pg_signal sigkill h) { killed = true }

-- what a check by the stuck detector meets: the UTC clock, and the processes
pub record Sight : Type 0 where
  pub utc : ℕ
  pub pgrep : ℕ → Pgrep

abbrev pub is_over : CostStatus → Bool
is_over over_per_worker = true
is_over over_global = true
is_over _ = false

abbrev pub is_kill_candidate : StuckStatus → Bool
is_kill_candidate kill_candidate = true
is_kill_candidate _ = false

-- `contextlib.suppress(KeyError)` around the check
abbrev pub or_live : Call MissingWorker StuckStatus → StuckStatus
or_live (returns status) = status
or_live (raises e) = live

abbrev pub started_at : ℕ → Option ℕ → ℕ
started_at now none = now
started_at now (some t) = t

unfoldable pub escalation_signal : ℕ → Signal
escalation_signal since_over =
    if ltb since_over escalation_wait
    then sigint
    else if ltb since_over (escalation_wait * 2)
    then sigterm
    else sigkill

abbrev pub send_stage : {m : _} → Signal → WorkerHandle m → WorkerHandle m
send_stage sigint h = send_pg_signal sigint h
send_stage sigterm h = send_pg_signal sigterm h
send_stage sigkill h = record (send_pg_signal sigkill h) { killed = true }

module _ (w : World) where
  abbrev pub is_cost_over : WorkerHandle (World.money w) → Bool
  is_cost_over h = is_over (Cost.check (World.money w) h.cost_guard (World.worker_id w))

  abbrev pub is_stuck : Sight → WorkerHandle (World.money w) → Bool
  is_stuck sight h =
      is_kill_candidate
        (or_live (Stuck.check sight.pgrep sight.utc (World.worker_id w) h.stuck_detector))

  -- the two readings of the monotonic clock: for the start of the escalation, and for `since_over`
  unfoldable pub kill_escalation :
      Sight → ℕ → ℕ → WorkerHandle (World.money w) → WorkerHandle (World.money w)
  kill_escalation sight begin now h =
      if is_cost_over h || is_stuck sight h
      then (let started = started_at begin h.exit_escalation_started in
          send_stage (escalation_signal (now - started))
            (record h { exit_escalation_started = some started }))
      else h

  -- _maybe_escalate, whose check comes before that of `kill_escalation`
  unfoldable pub maybe_escalate :
      Sight → Sight → ℕ → ℕ → WorkerHandle (World.money w) → WorkerHandle (World.money w)
  maybe_escalate first second begin now h =
      if is_cost_over h || is_stuck first h then kill_escalation second begin now h else h
