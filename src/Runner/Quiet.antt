-- ===== src/Runner/Quiet.antt =====
-- What a handle knows of its own signals, where it stays as it is.
use tab_conductor.Prelude.{◌≡◌, refl, ◌∙◌}
use tab_conductor.Cost.Usd.{Money}
use tab_conductor.Runner.Handle.{WorkerHandle}

module _ {m : Money} where
  -- Between `h` and `h'` no signal was sent and no heartbeat, no escalation began, and the stuck detector was
  -- left alone.
  pub record Quiet (h h' : WorkerHandle m) : Type 0 where
    pub signals : h'.signals ≡ h.signals
    pub started : h'.exit_escalation_started ≡ h.exit_escalation_started
    pub killed : h'.killed ≡ h.killed
    pub beat : h'.last_heartbeat_ts ≡ h.last_heartbeat_ts
    pub detector : h'.stuck_detector ≡ h.stuck_detector

  pub Quiet-refl : (h : WorkerHandle m) → Quiet h h
  Quiet-refl h = record {
    signals = refl;
    started = refl;
    killed = refl;
    beat = refl;
    detector = refl;
  }

  pub Quiet_trans : (h h1 h2 : WorkerHandle m) → Quiet h h1 → Quiet h1 h2 → Quiet h h2
  Quiet_trans h h1 h2 q r = record {
    signals = r.signals ∙ q.signals;
    started = r.started ∙ q.started;
    killed = r.killed ∙ q.killed;
    beat = r.beat ∙ q.beat;
    detector = r.detector ∙ q.detector;
  }
