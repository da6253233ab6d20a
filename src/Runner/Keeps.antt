-- ===== src/Runner/Keeps.antt =====
-- What all but the lines of the output leaves as it is.
use tab_conductor.Prelude.{
  ℕ, ◌-◌, ◌||◌, String, ◌≡◌, refl, some, List, [], ◌∷◌, ◌++◌, Bool-cases, inl, inr, ◌∙◌,
}
use tab_conductor.Value.Text.{is_empty}
use tab_conductor.Cost.{Signal, sigint, sigterm, sigkill}
use tab_conductor.Runner.Lines.{Bytes, split_lines}
use tab_conductor.Runner.Handle.{World, WorkerHandle}
use tab_conductor.Runner.Signals.{
  Sight, kill_escalation, maybe_escalate, send_stage, escalation_signal, started_at, is_cost_over,
  is_stuck,
}
use tab_conductor.Runner.Quiet.{Quiet, Quiet-refl, Quiet_trans}
use tab_conductor.Runner.Poll.{
  Polled, Moment, take_error_line, take_error_lines, read_stderr, line_of, update_sample, beat,
  after_reading,
}

module _ (w : World) where
  -- What `Reads` looks at is the same in `h'`.
  pub record Keeps (h h' : WorkerHandle (World.money w)) : Type 0 where
    pub buffer : h'.stdout_buf ≡ h.stdout_buf
    pub recent : h'.recent_lines ≡ h.recent_lines
    pub guard : h'.cost_guard ≡ h.cost_guard

  take_error_line-Keeps :
      (line : String) (p : Polled w)
      → Keeps p.handle (take_error_line w line p).handle
        × Quiet p.handle (take_error_line w line p).handle
  unfolding take_error_line
  take_error_line-Keeps line p = elim (Bool-cases (is_empty line)) [
    | inl blank ↦
        rw blank (record { buffer = refl; recent = refl; guard = refl }, Quiet-refl p.handle)
    | inr filled ↦ rw filled (
      record { buffer = refl; recent = refl; guard = refl },
      record { signals = refl; started = refl; killed = refl; beat = refl; detector = refl },
    )
  ]

  take_error_lines-Keeps :
      (ls : List Bytes) (p : Polled w)
      → Keeps p.handle (take_error_lines w ls p).handle
        × Quiet p.handle (take_error_lines w ls p).handle
  unfolding take_error_lines
  take_error_lines-Keeps [] p =
      (record { buffer = refl; recent = refl; guard = refl }, Quiet-refl p.handle)
  take_error_lines-Keeps (l ∷ ls) p =
      let q = take_error_line w (line_of w l) p in
      let (k, u) = take_error_line-Keeps (line_of w l) p in
      let (j, v) = take_error_lines-Keeps ls q in
      (
        record {
          buffer = j.buffer ∙ k.buffer;
          recent = j.recent ∙ k.recent;
          guard = j.guard ∙ k.guard;
        },
        Quiet_trans p.handle q.handle (take_error_lines w ls q).handle u v,
      )

  pub read_stderr-Keeps :
      (chunk : Bytes) (p : Polled w)
      → Keeps p.handle (read_stderr w chunk p).handle
        × Quiet p.handle (read_stderr w chunk p).handle
  unfolding read_stderr
  read_stderr-Keeps [] p =
      (record { buffer = refl; recent = refl; guard = refl }, Quiet-refl p.handle)
  read_stderr-Keeps (b ∷ chunk) p =
      let s = split_lines (p.handle.stderr_buf ++ b ∷ chunk) in
      let (k, u) =
        take_error_lines-Keeps s.lines
          (record p { handle = record p.handle { stderr_buf = s.rest } }) in
      (
        record { buffer = k.buffer; recent = k.recent; guard = k.guard },
        record {
          signals = u.signals;
          started = u.started;
          killed = u.killed;
          beat = u.beat;
          detector = u.detector;
        },
      )

  send_stage-Keeps : (sig : Signal) (h : WorkerHandle (World.money w)) → Keeps h (send_stage sig h)
  send_stage-Keeps sigint h = record { buffer = refl; recent = refl; guard = refl }
  send_stage-Keeps sigterm h = record { buffer = refl; recent = refl; guard = refl }
  send_stage-Keeps sigkill h = record { buffer = refl; recent = refl; guard = refl }

  kill_escalation-Keeps :
      (sight : Sight) (begin now : ℕ) (h : WorkerHandle (World.money w))
      → Keeps h (kill_escalation w sight begin now h)
  unfolding kill_escalation
  kill_escalation-Keeps sight begin now h =
      let started = started_at begin h.exit_escalation_started in
      elim (Bool-cases (is_cost_over w h || is_stuck w sight h)) [
        | inl over ↦
            let k =
              send_stage-Keeps (escalation_signal (now - started))
                (record h { exit_escalation_started = some started }) in
            rw over (record { buffer = k.buffer; recent = k.recent; guard = k.guard })
        | inr fine ↦ rw fine (record { buffer = refl; recent = refl; guard = refl })
      ]

  maybe_escalate-Keeps :
      (first second : Sight) (begin now : ℕ) (h : WorkerHandle (World.money w))
      → Keeps h (maybe_escalate w first second begin now h)
  unfolding maybe_escalate
  maybe_escalate-Keeps first second begin now h =
      elim (Bool-cases (is_cost_over w h || is_stuck w first h)) [
        | inl over ↦ rw over (kill_escalation-Keeps second begin now h)
        | inr fine ↦ rw fine (record { buffer = refl; recent = refl; guard = refl })
      ]

  pub after_reading-Keeps :
      (t : Moment) (p : Polled w) → Keeps p.handle (after_reading w t p).handle
  unfolding after_reading update_sample
  after_reading-Keeps t p =
      let k =
        maybe_escalate-Keeps t.first_sight t.second_sight t.begin t.now
          (update_sample w p.handle) in
      record { buffer = k.buffer; recent = k.recent; guard = k.guard }

  pub beat-Keeps : (t : Moment) (h : WorkerHandle (World.money w)) → Keeps h (beat w t h)
  unfolding beat
  beat-Keeps t h = record { buffer = refl; recent = refl; guard = refl }
