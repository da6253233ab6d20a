-- ===== src/Runner/Reads.antt =====
-- The polls of one worker: what its handle knows, against the output read so far.
use tab_conductor.Prelude.{
  ℕ, ◌+◌, String, ◌≡◌, refl, Option, none, some, List, [], ◌∷◌, ◌++◌, arith, leb, Bool-cases, inl,
  inr, ◌∙◌, ap, sym, subst, append-nil, append_assoc, if◌then◌else◌,
}
use tab_conductor.Prelude.Call.{returns, >>=-returns}
use tab_conductor.Value.Text.{is_empty}
use tab_conductor.Cost.{WorkerStats}
use tab_conductor.Runner.Lines.{Bytes, Split, split_lines}
use tab_conductor.Runner.Lines.Chunks.{split_lines-append}
use tab_conductor.Runner.Lines.Window.{IsWindow}
use tab_conductor.Runner.Handle.{heartbeat, World, WorkerHandle}
use tab_conductor.Runner.Poll.{
  Polled, Moment, Stream, stdout, stderr, heartbeat_interval, read_stdout, read_stderr, read_each,
  line_of, beat, after_reading, poll_ready, poll_once,
}
use tab_conductor.Runner.Keeps.{Keeps, read_stderr-Keeps, after_reading-Keeps, beat-Keeps}
use tab_conductor.Runner.Taken.{take_lines-Taken, texts, reported}
use tab_conductor.Runner.Charged.{own}

-- the bytes of the worker's output among what `select` made ready
unfoldable pub stdout_of : List (Stream × Bytes) → Bytes
stdout_of [] = []
stdout_of ((stdout, chunk) ∷ ready) = chunk ++ stdout_of ready
stdout_of ((stderr, chunk) ∷ ready) = stdout_of ready

abbrev pub stdout_in : Option (List (Stream × Bytes)) → Bytes
stdout_in none = []
stdout_in (some ready) = stdout_of ready

module _ (w : World) where
  -- the bytes of the output that a poll reads
  abbrev pub read_bytes : Moment → WorkerHandle (World.money w) → Bytes
  read_bytes t h =
      if leb (h.last_heartbeat_ts + heartbeat_interval) t.mono
      then []
      else if h.sel_registered
      then stdout_in t.ready
      else []

  -- the lines of an output, as texts
  abbrev pub lines_of : Bytes → List String
  lines_of out = texts w (split_lines out).lines

  -- `h` has read `out`, and had `h0`'s guards before.
  pub record Reads (h0 : WorkerHandle (World.money w)) (out : Bytes)
      (h : WorkerHandle (World.money w)) : Type 0 where
    pub buffer : h.stdout_buf ≡ (split_lines out).rest
    pub window : IsWindow h.recent_lines (lines_of out)
    pub tokens_in :
        WorkerStats.tokens_in (own w h.cost_guard)
        ≡ WorkerStats.tokens_in (own w h0.cost_guard) + reported w "input_tokens" (lines_of out)
    pub tokens_out :
        WorkerStats.tokens_out (own w h.cost_guard)
        ≡ WorkerStats.tokens_out (own w h0.cost_guard) + reported w "output_tokens" (lines_of out)

  Keeps-Reads :
      (h0 h h' : WorkerHandle (World.money w)) (out : Bytes)
      → Keeps w h h'
      → Reads h0 out h
      → Reads h0 out h'
  Keeps-Reads h0 h h' out k r = record {
    buffer = k.buffer ∙ r.buffer;
    window = subst (λ xs. IsWindow xs (lines_of out)) (sym k.recent) r.window;
    tokens_in = ap (λ g. WorkerStats.tokens_in (own w g)) k.guard ∙ r.tokens_in;
    tokens_out = ap (λ g. WorkerStats.tokens_out (own w g)) k.guard ∙ r.tokens_out;
  }

  texts-append : (xs ys : List Bytes) → texts w (xs ++ ys) ≡ texts w xs ++ texts w ys
  unfolding texts
  texts-append [] ys = refl
  texts-append (x ∷ xs) ys = elim (Bool-cases (is_empty (line_of w x))) [
    | inl blank ↦ rw blank (texts-append xs ys)
    | inr filled ↦ rw (filled, texts-append xs ys) refl
  ]

  reported-append :
      (key : String) (xs ys : List String)
      → reported w key (xs ++ ys) ≡ reported w key xs + reported w key ys
  unfolding reported
  reported-append key [] ys = omega arith
  reported-append key (x ∷ xs) ys = omega (arith, reported-append key xs ys)

  pub lines_of-append :
      (out chunk : Bytes)
      → lines_of (out ++ chunk) ≡ lines_of out ++ lines_of ((split_lines out).rest ++ chunk)
  lines_of-append out chunk =
      ap (λ s. texts w (Split.lines s)) (split_lines-append out chunk)
      ∙ texts-append (split_lines out).lines _

  nothing-Reads :
      (h0 : WorkerHandle (World.money w)) (out : Bytes) (q p : Polled w)
      → q ≡ p
      → Reads h0 out q.handle
      → Reads h0 (out ++ []) p.handle
  nothing-Reads h0 out q p e r =
      subst (λ (q : Polled w). Reads h0 (out ++ []) q.handle) e
        (subst (λ o. Reads h0 o q.handle) (sym (append-nil out)) r)

  read_stdout-Reads :
      (h0 : WorkerHandle (World.money w)) (out : Bytes) (now : ℕ) (chunk : Bytes) (p p' : Polled w)
      → read_stdout w now chunk p ≡ returns p'
      → Reads h0 out p.handle
      → Reads h0 (out ++ chunk) p'.handle
  unfolding read_stdout
  read_stdout-Reads h0 out now [] p p' e r = nothing-Reads h0 out p p' (cc e) r
  read_stdout-Reads h0 out now (b ∷ chunk) p p' e r =
      let c = b ∷ chunk in
      let s = split_lines (p.handle.stdout_buf ++ c) in
      let q = record p { handle = record p.handle { stdout_buf = s.rest } } in
      let t = take_lines-Taken w now s.lines q p' e in
      let grown : lines_of (out ++ c) ≡ lines_of out ++ texts w s.lines =
        lines_of-append out c ∙ ap (λ buf. lines_of out ++ lines_of (buf ++ c)) (sym r.buffer) in
      let sum = λ (key : String).
        ap (reported w key) grown ∙ reported-append key (lines_of out) (texts w s.lines) in
      record {
        buffer =
            t.buffer
            ∙ ap (λ buf. Split.rest (split_lines (buf ++ c))) r.buffer
            ∙ sym (ap (λ s. Split.rest s) (split_lines-append out c));
        window =
            subst (IsWindow p'.handle.recent_lines) (sym grown) (t.window (lines_of out) r.window);
        tokens_in = omega (arith, t.tokens_in, r.tokens_in, sum "input_tokens");
        tokens_out = omega (arith, t.tokens_out, r.tokens_out, sum "output_tokens");
      }

  read_each-Reads :
      (h0 : WorkerHandle (World.money w)) (out : Bytes) (now : ℕ) (ready : List (Stream × Bytes))
      (p p' : Polled w)
      → read_each w now ready p ≡ returns p'
      → Reads h0 out p.handle
      → Reads h0 (out ++ stdout_of ready) p'.handle
  unfolding read_each stdout_of
  read_each-Reads h0 out now [] p p' e r = nothing-Reads h0 out p p' (cc e) r
  read_each-Reads h0 out now ((stdout, chunk) ∷ ready) p p' e r =
      let (q, e1, e2) = >>=-returns (read_stdout w now chunk p) (read_each w now ready) e in
      subst (λ o. Reads h0 o p'.handle) (append_assoc out chunk (stdout_of ready))
        (read_each-Reads h0 (out ++ chunk) now ready q p' e2
          (read_stdout-Reads h0 out now chunk p q e1 r))
  read_each-Reads h0 out now ((stderr, chunk) ∷ ready) p p' e r =
      read_each-Reads h0 out now ready (read_stderr w chunk p) p' e (
        Keeps-Reads h0 p.handle (read_stderr w chunk p).handle out (read_stderr-Keeps w chunk p).0
          r)

  poll_ready-Reads :
      (h0 : WorkerHandle (World.money w)) (out : Bytes) (t : Moment)
      (ready : Option (List (Stream × Bytes))) (h : WorkerHandle (World.money w)) (p : Polled w)
      → poll_ready w t ready h ≡ returns p
      → Reads h0 out h
      → Reads h0 (out ++ stdout_in ready) p.handle
  poll_ready-Reads h0 out t none h p e r =
      nothing-Reads h0 out (record { event = none; handle = h }) p (cc e) r
  poll_ready-Reads h0 out t (some ready) h p e r =
      let (q, e1, e2) =
        >>=-returns (read_each w t.charged ready (record { event = none; handle = h }))
          (λ q. returns (after_reading w t q)) e in
      subst (λ (q : Polled w). Reads h0 (out ++ stdout_of ready) q.handle) {x = after_reading w t q}
        {y = p} (cc e2)
        (Keeps-Reads h0 q.handle (after_reading w t q).handle (out ++ stdout_of ready)
          (after_reading-Keeps w t q) (read_each-Reads h0 out t.charged ready _ q e1 r))

  pub poll_once-Reads :
      (h0 : WorkerHandle (World.money w)) (out : Bytes) (t : Moment)
      (h : WorkerHandle (World.money w)) (p : Polled w)
      → poll_once w t h ≡ returns p
      → Reads h0 out h
      → Reads h0 (out ++ read_bytes t h) p.handle
  unfolding poll_once
  poll_once-Reads h0 out t h p e r =
      elim (Bool-cases (leb (h.last_heartbeat_ts + heartbeat_interval) t.mono)) [
        | inl due ↦ rw due (
            nothing-Reads h0 out (record { event = some heartbeat; handle = beat w t h }) p
              (cc (due, e)) (Keeps-Reads h0 h (beat w t h) out (beat-Keeps w t h) r))
        | inr later ↦ elim (Bool-cases h.sel_registered) [
          | inl open_ ↦
              rw (later, open_) (poll_ready-Reads h0 out t t.ready h p (cc (later, open_, e)) r)
          | inr closed ↦
              rw (later, closed)
                (nothing-Reads h0 out (record { event = none; handle = h }) p
                  (cc (later, closed, e)) r)
        ]
      ]
