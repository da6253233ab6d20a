-- ===== src/Runner/Steadfast.antt =====
-- What the supervisor sees of the stuck detector in a turn, when the clocks are in step.
use tab_conductor.Prelude.{
  ℕ, ◌+◌, ◌-◌, ◌||◌, ◌*◌, ◌≤◌, ◌<◌, String, ◌≡◌, refl, Bool, true, false, Option, none, some, List,
  [], ◌∷◌, arith, leb, leb→lt, eq_refl, Bool-cases, inl, inr, ◌∙◌, ap, subst,
}
use tab_conductor.Prelude.Call.{returns, >>=-returns}
use tab_conductor.Dict.{lookup, lookup-insert}
use tab_conductor.Cost.{Signal, sigint, sigterm, sigkill}
use tab_conductor.Stuck.{
  StuckDetector, WorkerRecord, MissingWorker, register, update_heartbeat, observe, is_same,
  update_capture, is_elapsed, assess, found, put,
}
use tab_conductor.Stuck
use tab_conductor.Runner.Lines.{Bytes, last_lines, capture_window}
use tab_conductor.Runner.Handle.{heartbeat, World, WorkerHandle}
use tab_conductor.Runner.Signals.{
  Sight, escalation_signal, started_at, send_stage, is_cost_over, is_stuck, kill_escalation,
  maybe_escalate,
}
use tab_conductor.Runner.Poll.{
  Polled, Moment, Stream, heartbeat_interval, join_lines, read_each, update_sample, suppress, beat,
  after_reading, poll_ready, poll_once,
}
use tab_conductor.Runner.Watch.{read_each-Quiet}
use tab_conductor.Runner.Supervise.{Glance, escalate_if}

module _ (w : World) where
  -- The worker's record in the stuck detector; its last heartbeat there, in nanoseconds, lags behind the
  -- handle's by at most `lag`, when `offset` is the UTC clock at the start of the monotonic one.
  pub record BeatsAt (offset lag idle ts : ℕ) (d : StuckDetector) : Type 0 where
    pub rec : WorkerRecord
    pub known : lookup (World.worker_id w) d.workers ≡ some rec
    pub limit : d.idle_kill_threshold_s ≡ idle
    pub recent : offset + ts ≤ rec.last_heartbeat * 1000 + lag

  abbrev pub Beats : ℕ → ℕ → ℕ → WorkerHandle (World.money w) → Type 0
  Beats offset lag idle h = BeatsAt offset lag idle h.last_heartbeat_ts h.stuck_detector

  pub check-not_kill :
      (offset lag idle : ℕ) (h : WorkerHandle (World.money w)) (sight : Sight)
      → Beats offset lag idle h
      → sight.utc * 1000 + lag < offset + h.last_heartbeat_ts + idle * 1_000_000_000
      → is_stuck w sight h ≡ false
  unfolding Stuck.check assess is_elapsed
  check-not_kill offset lag idle h sight b soon =
      let early : leb (b.rec.last_heartbeat + idle * 1_000_000) sight.utc ≡ false =
        ground (arith, soon, b.recent) in
      ground (arith, b.known, b.limit, early)

  -- The detector and the time of the last heartbeat are the same in `h'`.
  pub record Still (h h' : WorkerHandle (World.money w)) : Type 0 where
    pub beat : h'.last_heartbeat_ts ≡ h.last_heartbeat_ts
    pub detector : h'.stuck_detector ≡ h.stuck_detector

  pub Still-Beats :
      (offset lag idle : ℕ) (h h' : WorkerHandle (World.money w))
      → Still h h'
      → Beats offset lag idle h
      → Beats offset lag idle h'
  Still-Beats offset lag idle h h' s b = record {
    rec = b.rec;
    known = ap (λ (d : StuckDetector). lookup (World.worker_id w) d.workers) s.detector ∙ b.known;
    limit = ap (λ (d : StuckDetector). d.idle_kill_threshold_s) s.detector ∙ b.limit;
    recent = omega (arith, b.recent, s.beat);
  }

  send_stage-Still : (sig : Signal) (h : WorkerHandle (World.money w)) → Still h (send_stage sig h)
  send_stage-Still sigint h = record { beat = refl; detector = refl }
  send_stage-Still sigterm h = record { beat = refl; detector = refl }
  send_stage-Still sigkill h = record { beat = refl; detector = refl }

  kill_escalation-Still :
      (sight : Sight) (begin now : ℕ) (h : WorkerHandle (World.money w))
      → Still h (kill_escalation w sight begin now h)
  unfolding kill_escalation
  kill_escalation-Still sight begin now h =
      elim (Bool-cases (is_cost_over w h || is_stuck w sight h)) [
        | inr fine ↦ rw fine (record { beat = refl; detector = refl })
        | inl over ↦
            let started = started_at begin h.exit_escalation_started in
            let s =
              send_stage-Still (escalation_signal (now - started))
                (record h { exit_escalation_started = some started }) in
            rw over (record { beat = s.beat; detector = s.detector })
      ]

  maybe_escalate-Still :
      (first second : Sight) (begin now : ℕ) (h : WorkerHandle (World.money w))
      → Still h (maybe_escalate w first second begin now h)
  unfolding maybe_escalate
  maybe_escalate-Still first second begin now h =
      elim (Bool-cases (is_cost_over w h || is_stuck w first h)) [
        | inl over ↦ rw over (kill_escalation-Still second begin now h)
        | inr fine ↦ rw fine (record { beat = refl; detector = refl })
      ]

  pub escalate_if-Still :
      (due : Bool) (g : Glance) (h : WorkerHandle (World.money w)) → Still h (escalate_if w due g h)
  escalate_if-Still true g h = kill_escalation-Still g.sight g.begin g.now h
  escalate_if-Still false g h = record { beat = refl; detector = refl }

  module _ (offset lag idle : ℕ) where
    observe-last_heartbeat :
        (digest : String) (rec : WorkerRecord)
        → (observe digest rec).last_heartbeat ≡ rec.last_heartbeat
    observe-last_heartbeat digest rec = elim (Bool-cases (is_same rec.last_capture_hash digest)) [
      | inl same ↦ rw same refl
      | inr other ↦ rw other refl
    ]

    -- a sample leaves the time of the last heartbeat
    captured-BeatsAt :
        (text : String) (ts : ℕ) (d : StuckDetector)
        → BeatsAt offset lag idle ts d
        → BeatsAt offset lag idle ts
            (suppress (update_capture (World.sha256 w) (World.worker_id w) text d) d)
    unfolding update_capture
    captured-BeatsAt text ts d b =
        let id = World.worker_id w in
        let rec' = observe (World.sha256 w text) b.rec in
        rw b.known (record {
          rec = rec';
          known = ground (arith, lookup-insert id id rec' d.workers, eq_refl id);
          limit = b.limit;
          recent = omega (arith, b.recent, observe-last_heartbeat (World.sha256 w text) b.rec);
        })

    update_sample-beat :
        (h : WorkerHandle (World.money w))
        → (update_sample w h).last_heartbeat_ts ≡ h.last_heartbeat_ts
    unfolding update_sample
    update_sample-beat h = refl

    sampled-Beats :
        (h : WorkerHandle (World.money w)) (lines : List String)
        → h.recent_lines ≡ lines
        → Beats offset lag idle h
        → Beats offset lag idle (update_sample w h)
    unfolding update_sample
    sampled-Beats h [] e b = rw e b
    sampled-Beats h (l ∷ ls) e b = rw e (
        captured-BeatsAt (join_lines (last_lines capture_window (l ∷ ls))) h.last_heartbeat_ts
          h.stuck_detector b)

    beat-Beats :
        (t : Moment) (h : WorkerHandle (World.money w))
        → offset + t.mono ≤ t.utc * 1000 + lag
        → Beats offset lag idle h
        → Beats offset lag idle (beat w t h)
    unfolding beat update_heartbeat
    beat-Beats t h step b =
        let id = World.worker_id w in
        let rec' = record b.rec { last_heartbeat = t.utc } in
        rw b.known (record {
          rec = rec';
          known = ground (arith, lookup-insert id id rec' h.stuck_detector.workers, eq_refl id);
          limit = b.limit;
          recent = step;
        })

    beat-fresh :
        (t : Moment) (h : WorkerHandle (World.money w))
        → t.mono < (beat w t h).last_heartbeat_ts + heartbeat_interval
    unfolding beat
    beat-fresh t h = omega arith

    -- after the poll, the last heartbeat is recent by the handle's own clock
    pub record IsFresh (t : Moment) (h : WorkerHandle (World.money w)) : Type 0 where
      pub beats : Beats offset lag idle h
      pub fresh : t.mono < h.last_heartbeat_ts + heartbeat_interval

    poll_ready-IsFresh :
        (t : Moment) (ready : Option (List (Stream × Bytes))) (h : WorkerHandle (World.money w))
        (p : Polled w)
        → poll_ready w t ready h ≡ returns p
        → t.mono < h.last_heartbeat_ts + heartbeat_interval
        → Beats offset lag idle h
        → IsFresh t p.handle
    unfolding after_reading
    poll_ready-IsFresh t none h p e fresh b =
        subst (λ (q : Polled w). IsFresh t q.handle) {x = record { event = none; handle = h }}
          {y = p} (cc e) (record { beats = b; fresh = fresh })
    poll_ready-IsFresh t (some ready) h p e fresh b =
        let (q, e1, e2) =
          >>=-returns (read_each w t.charged ready (record { event = none; handle = h }))
            (λ q. returns (after_reading w t q)) e in
        let u = read_each-Quiet w t.charged ready _ q e1 in
        let s =
          maybe_escalate-Still t.first_sight t.second_sight t.begin t.now
            (update_sample w q.handle) in
        let b1 =
          Still-Beats offset lag idle h q.handle (record { beat = u.beat; detector = u.detector })
            b in
        let b2 = sampled-Beats q.handle q.handle.recent_lines refl b1 in
        subst (λ (q : Polled w). IsFresh t q.handle) {x = after_reading w t q} {y = p} (cc e2)
          (record {
            beats = Still-Beats offset lag idle (update_sample w q.handle) _ s b2;
            fresh = omega (arith, fresh, s.beat, u.beat, update_sample-beat q.handle);
          })

    pub poll_once-IsFresh :
        (t : Moment) (h : WorkerHandle (World.money w)) (p : Polled w)
        → poll_once w t h ≡ returns p
        → offset + t.mono ≤ t.utc * 1000 + lag
        → Beats offset lag idle h
        → IsFresh t p.handle
    unfolding poll_once
    poll_once-IsFresh t h p e step b =
        elim (Bool-cases (leb (h.last_heartbeat_ts + heartbeat_interval) t.mono)) [
          | inl due ↦
              subst (λ (q : Polled w). IsFresh t q.handle)
                {x = record { event = some heartbeat; handle = beat w t h }} {y = p} (cc (due, e))
                (record { beats = beat-Beats t h step b; fresh = beat-fresh t h })
          | inr wait ↦
              let fresh : t.mono < h.last_heartbeat_ts + heartbeat_interval = leb→lt _ _ wait in
              elim (Bool-cases h.sel_registered) [
                | inl watched ↦ poll_ready-IsFresh t t.ready h p (cc (wait, watched, e)) fresh b
                | inr closed ↦
                    subst (λ (q : Polled w). IsFresh t q.handle)
                      {x = record { event = none; handle = h }} {y = p} (cc (wait, closed, e))
                      (record { beats = b; fresh = fresh })
              ]
        ]
