-- ===== src/Runner/Causes.antt =====
-- When `poll_once` sends a signal.
use tab_conductor.Prelude.{
  ℕ, ◌+◌, ◌-◌, ◌≡◌, refl, true, ◌||◌, ◌⊎◌, Option, none, some, List, ◌∷◌, leb, Bool-cases, inl, inr,
  ap, subst,
}
use tab_conductor.Prelude.Call.{returns, >>=-returns}
use tab_conductor.Cost.{Signal, sigint, sigterm, sigkill}
use tab_conductor.Runner.Lines.{Bytes}
use tab_conductor.Runner.Handle.{World, WorkerHandle, heartbeat}
use tab_conductor.Runner.Signals.{
  Sight, escalation_signal, started_at, send_stage, is_cost_over, is_stuck, kill_escalation,
  maybe_escalate,
}
use tab_conductor.Runner.Poll.{
  Polled, Moment, Stream, heartbeat_interval, read_each, update_sample, beat, after_reading,
  poll_ready, poll_once,
}
use tab_conductor.Runner.Watch.{read_each-Quiet}

module _ (w : World) where
  -- Between `h` and `h'` no signal was sent, or one, to a worker that is over a budget or is to be killed.
  abbrev pub Signalled :
      Sight → WorkerHandle (World.money w) → WorkerHandle (World.money w) → Type 0
  Signalled sight h h' =
      (h'.signals ≡ h.signals)
      ⊎ ((sig : Signal) × (h'.signals ≡ sig ∷ h.signals)
          × ((is_cost_over w h' || is_stuck w sight h') ≡ true))

  send_stage-Signalled :
      (sight : Sight) (sig : Signal) (h : WorkerHandle (World.money w))
      → (is_cost_over w h || is_stuck w sight h) ≡ true
      → Signalled sight h (send_stage sig h)
  send_stage-Signalled sight sigint h over = inr (sigint, refl, over)
  send_stage-Signalled sight sigterm h over = inr (sigterm, refl, over)
  send_stage-Signalled sight sigkill h over = inr (sigkill, refl, over)

  maybe_escalate-Signalled :
      (first second : Sight) (begin now : ℕ) (h : WorkerHandle (World.money w))
      → Signalled second h (maybe_escalate w first second begin now h)
  unfolding maybe_escalate kill_escalation
  maybe_escalate-Signalled first second begin now h =
      elim (Bool-cases (is_cost_over w h || is_stuck w first h)) [
        | inr fine ↦ rw fine (inl refl)
        | inl over ↦ rw over (elim (Bool-cases (is_cost_over w h || is_stuck w second h)) [
          | inr fine ↦ rw fine (inl refl)
          | inl still ↦
              let started = started_at begin h.exit_escalation_started in
              rw still (
                send_stage-Signalled second (escalation_signal (now - started))
                  (record h { exit_escalation_started = some started }) still)
        ])
      ]

  poll_ready-Signalled :
      (t : Moment) (ready : Option (List (Stream × Bytes))) (h : WorkerHandle (World.money w))
      (p : Polled w)
      → poll_ready w t ready h ≡ returns p
      → Signalled t.second_sight h p.handle
  unfolding after_reading update_sample
  poll_ready-Signalled t none h p e = inl (cc e)
  poll_ready-Signalled t (some ready) h p e =
      let (q, e1, e2) =
        >>=-returns (read_each w t.charged ready (record { event = none; handle = h }))
          (λ q. returns (after_reading w t q)) e in
      subst (λ (q : Polled w). Signalled t.second_sight h q.handle) {x = after_reading w t q}
        {y = p} (cc e2)
        (subst
          (λ ss. Signalled t.second_sight (record h { signals = ss }) (after_reading w t q).handle)
          (read_each-Quiet w t.charged ready _ q e1).signals
          (maybe_escalate-Signalled t.first_sight t.second_sight t.begin t.now
            (update_sample w q.handle)))

  -- If a poll returns, it has sent no signal, or one, and then a check after it finds that the worker, or the
  -- run, is over its budget, or that the worker is to be killed as stuck.
  pub poll_once-Signalled :
      (t : Moment) (h : WorkerHandle (World.money w)) (p : Polled w)
      → poll_once w t h ≡ returns p
      → Signalled t.second_sight h p.handle
  unfolding poll_once beat
  poll_once-Signalled t h p e =
      elim (Bool-cases (leb (h.last_heartbeat_ts + heartbeat_interval) t.mono)) [
        | inl due ↦ inl (
            ap (λ (q : Polled w). q.handle.signals) {x = p}
              {y = record { event = some heartbeat; handle = beat w t h }} (cc (due, e)))
        | inr wait ↦ elim (Bool-cases h.sel_registered) [
          | inl watched ↦ poll_ready-Signalled t t.ready h p (cc (wait, watched, e))
          | inr closed ↦ inl (
              ap (λ (q : Polled w). q.handle.signals) {x = p}
                {y = record { event = none; handle = h }} (cc (wait, closed, e)))
        ]
      ]
