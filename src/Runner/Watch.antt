-- ===== src/Runner/Watch.antt =====
-- The polls of a worker from its spawn on.
use tab_conductor.Prelude.{
  ℕ, ◌+◌, ◌≤◌, String, ◌≡◌, refl, Bool, Option, none, some, List, [], ◌∷◌, ◌++◌, arith, leb,
  Bool-cases, inl, inr, subst,
}
use tab_conductor.Prelude.Call.{returns, >>=-returns}
use tab_conductor.Cost.{CostGuard}
use tab_conductor.Stuck.{StuckDetector}
use tab_conductor.Runner.Lines.{Bytes, split_lines}
use tab_conductor.Runner.Handle.{heartbeat, World, WorkerHandle, new, spawn}
use tab_conductor.Runner.Poll.{
  Polled, Moment, Stream, stdout, stderr, heartbeat_interval, read_stdout, read_stderr, read_each,
  update_sample, beat, after_reading, poll_ready, poll_once,
}
use tab_conductor.Runner.Quiet.{Quiet, Quiet-refl, Quiet_trans}
use tab_conductor.Runner.Taken.{take_lines-Taken, texts, reported}
use tab_conductor.Runner.Keeps.{read_stderr-Keeps}
use tab_conductor.Runner.Reads.{read_bytes, Reads, poll_once-Reads}
use tab_conductor.Runner.Severity.{
  Escalates, has_kill, Quiet-Escalates, later-Escalates, maybe_escalate-Escalates,
}

module _ (w : World) where
  -- The polls that return, with what they read of the output, up to a reading of the monotonic clock, which
  -- never goes back.
  pub data Polls (h0 : WorkerHandle (World.money w))
      : ℕ → Bytes → WorkerHandle (World.money w) → Type 0 where
    here : Polls h0 0 [] h0
    polls :
        {time : ℕ} {out : Bytes} {h : WorkerHandle (World.money w)} (t : Moment) (p : Polled w)
        → Polls h0 time out h
        → time ≤ t.begin
        → t.begin ≤ t.now
        → poll_once w t h ≡ returns p
        → Polls h0 t.now (out ++ read_bytes w t h) p.handle

  read_stdout-Quiet :
      (now : ℕ) (chunk : Bytes) (p p' : Polled w)
      → read_stdout w now chunk p ≡ returns p'
      → Quiet p.handle p'.handle
  unfolding read_stdout
  read_stdout-Quiet now [] p p' e =
      subst (λ (q : Polled w). Quiet p.handle q.handle) {x = p} {y = p'} (cc e)
        (Quiet-refl p.handle)
  read_stdout-Quiet now (b ∷ chunk) p p' e =
      let q = (take_lines-Taken w now _ _ p' e).quiet in
      record {
        signals = q.signals;
        started = q.started;
        killed = q.killed;
        beat = q.beat;
        detector = q.detector;
      }

  pub read_each-Quiet :
      (now : ℕ) (ready : List (Stream × Bytes)) (p p' : Polled w)
      → read_each w now ready p ≡ returns p'
      → Quiet p.handle p'.handle
  unfolding read_each
  read_each-Quiet now [] p p' e =
      subst (λ (q : Polled w). Quiet p.handle q.handle) {x = p} {y = p'} (cc e)
        (Quiet-refl p.handle)
  read_each-Quiet now ((stdout, chunk) ∷ ready) p p' e =
      let (q, e1, e2) = >>=-returns (read_stdout w now chunk p) (read_each w now ready) e in
      Quiet_trans p.handle q.handle p'.handle (read_stdout-Quiet now chunk p q e1)
        (read_each-Quiet now ready q p' e2)
  read_each-Quiet now ((stderr, chunk) ∷ ready) p p' e =
      let q = read_stderr w chunk p in
      Quiet_trans p.handle q.handle p'.handle (read_stderr-Keeps w chunk p).1
        (read_each-Quiet now ready q p' e)

  after_reading-Escalates :
      (time : ℕ) (t : Moment) (p : Polled w)
      → time ≤ t.begin
      → t.begin ≤ t.now
      → Escalates time p.handle
      → Escalates t.now (after_reading w t p).handle
  unfolding after_reading update_sample
  after_reading-Escalates time t p le1 le2 e =
      maybe_escalate-Escalates w t.first_sight t.second_sight time t.begin t.now
        (update_sample w p.handle) le1 le2
        (record { graded = e.graded; killed = e.killed; before = e.before; after = e.after })

  poll_ready-Escalates :
      (time : ℕ) (t : Moment) (ready : Option (List (Stream × Bytes)))
      (h : WorkerHandle (World.money w)) (p : Polled w)
      → time ≤ t.begin
      → t.begin ≤ t.now
      → poll_ready w t ready h ≡ returns p
      → Escalates time h
      → Escalates t.now p.handle
  poll_ready-Escalates time t none h p le1 le2 e i =
      subst (λ (q : Polled w). Escalates t.now q.handle) {x = record { event = none; handle = h }}
        {y = p} (cc e) (later-Escalates time t.now h (omega (arith, le1, le2)) i)
  poll_ready-Escalates time t (some ready) h p le1 le2 e i =
      let (q, e1, e2) =
        >>=-returns (read_each w t.charged ready (record { event = none; handle = h }))
          (λ q. returns (after_reading w t q)) e in
      subst (λ (q : Polled w). Escalates t.now q.handle) {x = after_reading w t q} {y = p} (cc e2)
        (after_reading-Escalates time t q le1 le2
          (Quiet-Escalates time h q.handle (read_each-Quiet t.charged ready _ q e1) i))

  poll_once-Escalates :
      (time : ℕ) (t : Moment) (h : WorkerHandle (World.money w)) (p : Polled w)
      → time ≤ t.begin
      → t.begin ≤ t.now
      → poll_once w t h ≡ returns p
      → Escalates time h
      → Escalates t.now p.handle
  unfolding poll_once beat
  poll_once-Escalates time t h p le1 le2 e i =
      let j = later-Escalates time t.now h (omega (arith, le1, le2)) i in
      elim (Bool-cases (leb (h.last_heartbeat_ts + heartbeat_interval) t.mono)) [
        | inl due ↦
            subst (λ (q : Polled w). Escalates t.now q.handle)
              {x = record { event = some heartbeat; handle = beat w t h }} {y = p} (cc (due, e))
              (record { graded = j.graded; killed = j.killed; before = j.before; after = j.after })
        | inr wait ↦ elim (Bool-cases h.sel_registered) [
          | inl watched ↦ poll_ready-Escalates time t t.ready h p le1 le2 (cc (wait, watched, e)) i
          | inr closed ↦
              subst (λ (q : Polled w). Escalates t.now q.handle)
                {x = record { event = none; handle = h }} {y = p} (cc (wait, closed, e)) j
        ]
      ]

  module _ (pid : ℕ) (task_id : String) (utc mono : ℕ) (registered : Bool)
      (g : CostGuard (World.money w)) (d : StuckDetector) where
    -- the handle that `spawn` returns
    abbrev pub first : WorkerHandle (World.money w)
    first = spawn w pid task_id utc mono registered g d

    first-Reads : Reads w first [] first
    unfolding spawn new split_lines texts reported
    first-Reads = record {
      buffer = refl;
      window = record { bounded = ground arith; last = refl };
      tokens_in = omega arith;
      tokens_out = omega arith;
    }

    -- Along polls that return, from the handle of a new worker on, the handle is what the bytes read so far make
    -- it, however the reads cut them: the buffer is what follows the last newline; the recent lines are at most
    -- 100, and the last 50 of them are the last 50 of all lines with more than spaces; and the worker's tokens in
    -- the cost guard have grown by those that all the result lines report.
    pub Polls-Reads :
        (time : ℕ) (out : Bytes) (h : WorkerHandle (World.money w))
        → Polls first time out h
        → Reads w first out h
    Polls-Reads time out h here = first-Reads
    Polls-Reads time out h (polls t p ps le1 le2 e) =
        poll_once-Reads w first _ t _ p e (Polls-Reads _ _ _ ps)

    first-Escalates : Escalates 0 first
    unfolding spawn new has_kill
    first-Escalates = record { graded = tt; killed = refl; before = λ h. refl; after = λ s h. cc h }

    -- Along polls that return, from the handle of a new worker on, with a clock that never goes back, no signal
    -- to the worker is milder than an earlier one, or more severe than the time since the escalation began asks
    -- for; none is sent before it began; and the worker counts as killed exactly if SIGKILL was sent.
    pub Polls-Escalates :
        (time : ℕ) (out : Bytes) (h : WorkerHandle (World.money w))
        → Polls first time out h
        → Escalates time h
    Polls-Escalates time out h here = first-Escalates
    Polls-Escalates time out h (polls t p ps le1 le2 e) =
        poll_once-Escalates _ t _ p le1 le2 e (Polls-Escalates _ _ _ ps)
