-- ===== src/Runner/Supervise.antt =====
-- What `_supervisor_loop` of orchestrator.py does with one worker's handle in a turn, and what this makes of the
-- stuck detector's verdict.
use tab_conductor.Prelude.{ℕ, Bool, true, false, if◌then◌else◌}
use tab_conductor.Prelude.Call.{Call, returns, ◌>>=◌}
use tab_conductor.Cost.{CostGuard, CostStatus, over_global, Signal, sigint, sigterm, sigkill}
use tab_conductor.Cost
use tab_conductor.Orchestrator.Round.{Poll}
use tab_conductor.Runner.Handle.{RunnerError, World, WorkerHandle}
use tab_conductor.Runner.Signals.{Sight, is_stuck, kill_escalation}
use tab_conductor.Runner.Poll.{Moment, poll_once}

-- what the turn meets after the poll: the checks' sight, the clock's two readings, and whether the process lives
pub record Glance : Type 0 where
  pub sight : Sight
  pub begin : ℕ
  pub now : ℕ
  pub alive : Bool

abbrev pub is_over_global : CostStatus → Bool
is_over_global over_global = true
is_over_global _ = false

module _ (w : World) where
  -- the turn's verdict as the orchestrator's model takes it, and the handle
  pub record Supervised : Type 0 where
    pub verdict : Poll
    pub handle : WorkerHandle (World.money w)

  abbrev pub escalate_if :
      Bool → Glance → WorkerHandle (World.money w) → WorkerHandle (World.money w)
  escalate_if is_due g h = if is_due then kill_escalation w g.sight g.begin g.now h else h

  abbrev pub glance_at : Glance → WorkerHandle (World.money w) → Supervised
  glance_at g h =
      let over = is_over_global (Cost.check (World.money w) h.cost_guard (World.worker_id w)) in
      let h1 = escalate_if over g h in
      let kill = is_stuck w g.sight h1 in
      record {
        verdict = record { over_global = over; kill_candidate = kill; alive = g.alive };
        handle = escalate_if kill g h1;
      }

  unfoldable pub supervise :
      Moment → Glance → WorkerHandle (World.money w) → Call RunnerError Supervised
  supervise t g h = poll_once w t h >>= λ p. returns (glance_at g p.handle)
