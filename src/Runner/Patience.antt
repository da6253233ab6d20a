-- ===== src/Runner/Patience.antt =====
-- The turns of the supervisor with one worker, when the clocks are in step.
use tab_conductor.Prelude.{
  ℕ, ◌+◌, ◌*◌, ◌≤◌, String, ◌≡◌, refl, Bool, false, none, arith, eq_refl, subst,
}
use tab_conductor.Prelude.Call.{returns, >>=-returns}
use tab_conductor.Dict.{lookup-insert}
use tab_conductor.Cost.{CostGuard}
use tab_conductor.Cost
use tab_conductor.Stuck.{StuckDetector, WorkerRecord, register}
use tab_conductor.Runner.Handle.{World, WorkerHandle, new, spawn}
use tab_conductor.Runner.Signals.{is_stuck}
use tab_conductor.Runner.Poll.{Moment, heartbeat_interval, poll_once}
use tab_conductor.Runner.Supervise.{
  Glance, Supervised, glance_at, escalate_if, is_over_global, supervise,
}
use tab_conductor.Runner.Steadfast.{
  Beats, Still-Beats, escalate_if-Still, check-not_kill, IsFresh, poll_once-IsFresh,
}

-- The UTC clock is in step with the monotonic one, `offset` before it, up to `lag` at a heartbeat, and the
-- turn's check comes at most `delay` after the start of its poll; all in nanoseconds.
pub record IsOnTime (offset lag delay : ℕ) (t : Moment) (g : Glance) : Type 0 where
  pub in_step : offset + t.mono ≤ t.utc * 1000 + lag
  pub prompt : g.sight.utc * 1000 ≤ offset + t.mono + delay

module _ (w : World) (offset lag delay : ℕ) where
  -- turns that return, in time
  pub data Turns (h0 : WorkerHandle (World.money w)) : WorkerHandle (World.money w) → Type 0 where
    here : Turns h0 h0
    turns :
        {h : WorkerHandle (World.money w)} (t : Moment) (g : Glance) (s : Supervised w)
        → Turns h0 h
        → IsOnTime offset lag delay t g
        → supervise w t g h ≡ returns s
        → Turns h0 s.handle

  module _ (idle : ℕ) (patient : delay + lag + heartbeat_interval ≤ idle * 1_000_000_000) where
    not_kill :
        (t : Moment) (g : Glance) (h : WorkerHandle (World.money w))
        → IsOnTime offset lag delay t g
        → IsFresh w offset lag idle t h
        → is_stuck w g.sight h ≡ false
    not_kill t g h on f =
        check-not_kill w offset lag idle h g.sight f.beats
          (omega (arith, on.prompt, f.fresh, patient))

    -- the state after a turn, and its verdict
    record Spared (s : Supervised w) : Type 0 where
      spared : s.verdict.kill_candidate ≡ false
      beats : Beats w offset lag idle s.handle

    glance_at-Spared :
        (t : Moment) (g : Glance) (h : WorkerHandle (World.money w))
        → IsOnTime offset lag delay t g
        → IsFresh w offset lag idle t h
        → Spared (glance_at w g h)
    glance_at-Spared t g h on f =
        let over = is_over_global (Cost.check (World.money w) h.cost_guard (World.worker_id w)) in
        let h1 = escalate_if w over g h in
        let s1 = escalate_if-Still w over g h in
        let f1 : IsFresh w offset lag idle t h1 = record {
          beats = Still-Beats w offset lag idle h h1 s1 f.beats;
          fresh = omega (arith, f.fresh, s1.beat);
        } in
        let s2 = escalate_if-Still w (is_stuck w g.sight h1) g h1 in
        record {
          spared = not_kill t g h1 on f1;
          beats = Still-Beats w offset lag idle h1 _ s2 f1.beats;
        }

    supervise-Spared :
        (t : Moment) (g : Glance) (h : WorkerHandle (World.money w)) (s : Supervised w)
        → IsOnTime offset lag delay t g
        → supervise w t g h ≡ returns s
        → Beats w offset lag idle h
        → Spared s
    unfolding supervise
    supervise-Spared t g h s on e b =
        let (p, e1, e2) = >>=-returns (poll_once w t h) (λ p. returns (glance_at w g p.handle)) e in
        subst Spared {x = glance_at w g p.handle} {y = s} (cc e2) (
          glance_at-Spared t g p.handle on
            (poll_once-IsFresh w offset lag idle t h p e1 on.in_step b))

    Turns-Beats :
        (h0 h : WorkerHandle (World.money w))
        → Beats w offset lag idle h0
        → Turns h0 h
        → Beats w offset lag idle h
    Turns-Beats h0 h b here = b
    Turns-Beats h0 h b (turns t g s r on e) =
        (supervise-Spared t g _ s on e (Turns-Beats h0 _ b r)).beats

  -- If the detector's limit for a kill is at least five seconds and the delays of the clocks, and a new worker
  -- has been through any turns in time, then in each further turn in time that returns, the detector does not
  -- ask to kill it, whatever the worker has printed, or if it has been silent all along.
  pub supervise-not_kill :
      (pid : ℕ) (task_id : String) (utc mono : ℕ) (registered : Bool)
      (guard : CostGuard (World.money w)) (d : StuckDetector) (h : WorkerHandle (World.money w))
      (t : Moment) (g : Glance) (s : Supervised w)
      → delay + lag + heartbeat_interval ≤ d.idle_kill_threshold_s * 1_000_000_000
      → offset + mono ≤ utc * 1000 + lag
      → Turns (spawn w pid task_id utc mono registered guard d) h
      → IsOnTime offset lag delay t g
      → supervise w t g h ≡ returns s
      → s.verdict.kill_candidate ≡ false
  unfolding spawn new register
  supervise-not_kill pid task_id utc mono registered guard d h t g s patient in_step r on e =
      let idle = d.idle_kill_threshold_s in
      let first = spawn w pid task_id utc mono registered guard d in
      let id = World.worker_id w in
      let rec : WorkerRecord = record {
        pid = pid;
        last_heartbeat = utc;
        last_capture_hash = none;
        capture_repeat_count = 0;
        registered_at = utc;
      } in
      let b : Beats w offset lag idle first = record {
        rec = rec;
        known = ground (arith, lookup-insert id id rec d.workers, eq_refl id);
        limit = refl;
        recent = in_step;
      } in
      (supervise-Spared idle patient t g h s on e (Turns-Beats idle patient first h b r)).spared
