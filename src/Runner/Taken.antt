-- ===== src/Runner/Taken.antt =====
-- What the lines of a worker's output do to its handle: the window of recent lines, and the tokens charged.
use tab_conductor.Prelude.{
  ℕ, zero, ◌+◌, String, ◌≡◌, refl, true, Option, none, some, List, [], ◌∷◌, ◌++◌, arith, Bool-cases,
  inl, inr, ◌∙◌, sym, subst, append-nil, append_assoc, if◌then◌else◌,
}
use tab_conductor.Prelude.Int.{ℤ, pos_part}
use tab_conductor.Prelude.Call.{Call, returns, raises, >>=-returns}
use tab_conductor.Value.{Value, dict, Fields}
use tab_conductor.Value.Text.{is_empty}
use tab_conductor.Cost.{WorkerStats}
use tab_conductor.Runner.Lines.{Bytes, push_line}
use tab_conductor.Runner.Lines.Window.{IsWindow, push_line-IsWindow}
use tab_conductor.Runner.Handle.{
  RunnerError, stdout_raw, stdout_json, result, usage, append_event, emit, World, WorkerHandle,
  Handled, token_count, is_result, usage_of, total_cost, is_truthy, charge_with, handle_result,
  handle_parsed, handle_stdout_line,
}
use tab_conductor.Runner.Quiet.{Quiet, Quiet-refl, Quiet_trans}
use tab_conductor.Runner.Charged.{own, Charged, charge_with-Charged, kept-Charged}
use tab_conductor.Runner.Poll.{Polled, of_handled, line_of, take_line, take_lines}

abbrev count_of : Call RunnerError ℤ → ℕ
count_of (returns n) = pos_part n
count_of (raises e) = zero

-- the tokens that a line reports under `key`
abbrev tokens_of : String → Option Value → ℕ
tokens_of key (some (dict parsed)) =
    if is_result parsed then count_of (token_count key (usage_of parsed)) else zero
tokens_of key _ = zero

module _ (w : World) where
  unfoldable pub reported : String → List String → ℕ
  reported key [] = 0
  reported key (l ∷ ls) = tokens_of key (World.loads w l) + reported key ls

  -- the lines that have more than spaces, as texts
  unfoldable pub texts : List Bytes → List String
  texts [] = []
  texts (l ∷ ls) =
      let rest = texts ls in if is_empty (line_of w l) then rest else line_of w l ∷ rest

  -- `h'` is `h` after the lines `ls`.
  pub record Taken (ls : List String) (h h' : WorkerHandle (World.money w)) : Type 0 where
    pub quiet : Quiet h h'
    pub buffer : h'.stdout_buf ≡ h.stdout_buf
    pub window :
        (lines : List String)
        → IsWindow h.recent_lines lines
        → IsWindow h'.recent_lines (lines ++ ls)
    pub tokens_in :
        WorkerStats.tokens_in (own w h'.cost_guard)
        ≡ WorkerStats.tokens_in (own w h.cost_guard) + reported "input_tokens" ls
    pub tokens_out :
        WorkerStats.tokens_out (own w h'.cost_guard)
        ≡ WorkerStats.tokens_out (own w h.cost_guard) + reported "output_tokens" ls

  -- a line that was appended to the recent lines
  pushed-Taken :
      (line : String) (h h' : WorkerHandle (World.money w)) {i o : ℕ}
      → Quiet h h'
      → h'.stdout_buf ≡ h.stdout_buf
      → h'.recent_lines ≡ push_line line h.recent_lines
      → Charged w i o h.cost_guard h'.cost_guard
      → tokens_of "input_tokens" (World.loads w line) ≡ i
      → tokens_of "output_tokens" (World.loads w line) ≡ o
      → Taken (line ∷ []) h h'
  unfolding reported
  pushed-Taken line h h' quiet buffer recent c i o = record {
    quiet = quiet;
    buffer = buffer;
    window = λ lines win.
        subst (λ xs. IsWindow xs (lines ++ line ∷ [])) (sym recent)
          (push_line-IsWindow line h.recent_lines lines win);
    tokens_in = omega (arith, c.more_in, i);
    tokens_out = omega (arith, c.more_out, o);
  }

  handle_result-Taken :
      (now : ℕ) (line : String) (parsed : Fields) (h : WorkerHandle (World.money w)) (r : Handled w)
      → World.loads w line ≡ some (dict parsed)
      → is_result parsed ≡ true
      → handle_result w now parsed (record h { recent_lines = push_line line h.recent_lines })
        ≡ returns r
      → Taken (line ∷ []) h r.handle
  unfolding handle_result
  handle_result-Taken now line parsed h r loaded final e =
      let (i, h1, e1) = >>=-returns (token_count "input_tokens" (usage_of parsed)) _ e in
      let (o, h2, e2) = >>=-returns (token_count "output_tokens" (usage_of parsed)) _ e1 in
      let (g, h3, e3) =
        >>=-returns
          (charge_with w h.cost_guard now i o (is_truthy (total_cost parsed))
            (World.amount_of w (total_cost parsed)))
          _ e2 in
      let done = emit w (result parsed) (
        append_event (usage i o (total_cost parsed))
          (record h { recent_lines = push_line line h.recent_lines; cost_guard = g })) in
      subst (λ (r : Handled w). Taken (line ∷ []) h r.handle) {x = done} {y = r} (cc e3)
        (pushed-Taken line h _
          (record { signals = refl; started = refl; killed = refl; beat = refl; detector = refl })
          refl refl (charge_with-Charged w h.cost_guard g now i o _ _ h3)
          (rw (loaded, final, h1) refl) (rw (loaded, final, h2) refl))

  handle_parsed-Taken :
      (now : ℕ) (line : String) (v : Option Value) (h : WorkerHandle (World.money w))
      (r : Handled w)
      → World.loads w line ≡ v
      → handle_parsed w now line v (record h { recent_lines = push_line line h.recent_lines })
        ≡ returns r
      → Taken (line ∷ []) h r.handle
  unfolding handle_parsed
  handle_parsed-Taken now line none h r loaded e =
      subst (λ (r : Handled w). Taken (line ∷ []) h r.handle)
        {x = emit w (stdout_raw line) (record h { recent_lines = push_line line h.recent_lines })}
        {y = r} (cc e)
        (pushed-Taken line h _
          (record { signals = refl; started = refl; killed = refl; beat = refl; detector = refl })
          refl refl (kept-Charged w h.cost_guard) (rw loaded refl) (rw loaded refl))
  handle_parsed-Taken now line (some (dict parsed)) h r loaded e =
      elim (Bool-cases (is_result parsed)) [
        | inl final ↦ handle_result-Taken now line parsed h r loaded final (cc (final, e))
        | inr plain ↦
            subst (λ (r : Handled w). Taken (line ∷ []) h r.handle)
              {x = emit w (stdout_json parsed)
                (record h { recent_lines = push_line line h.recent_lines })}
              {y = r} (cc (plain, e))
              (pushed-Taken line h _
                (record {
                  signals = refl;
                  started = refl;
                  killed = refl;
                  beat = refl;
                  detector = refl;
                })
                refl refl (kept-Charged w h.cost_guard) (rw (loaded, plain) refl)
                (rw (loaded, plain) refl))
      ]
  handle_parsed-Taken now line (some v) h r loaded e = cc e

  handle_stdout_line-Taken :
      (now : ℕ) (line : String) (h : WorkerHandle (World.money w)) (r : Handled w)
      → handle_stdout_line w now line h ≡ returns r
      → Taken (line ∷ []) h r.handle
  unfolding handle_stdout_line
  handle_stdout_line-Taken now line h r e = elim (Bool-cases (World.breaks w line)) [
    | inl breaks ↦ cc (breaks, e)
    | inr whole ↦ handle_parsed-Taken now line (World.loads w line) h r refl (cc (whole, e))
  ]

  kept-Taken : (h : WorkerHandle (World.money w)) → Taken [] h h
  unfolding reported
  kept-Taken h = record {
    quiet = Quiet-refl h;
    buffer = refl;
    window = λ lines win. subst (IsWindow h.recent_lines) (sym (append-nil lines)) win;
    tokens_in = omega arith;
    tokens_out = omega arith;
  }

  cons-Taken :
      (line : String) (ls : List String) (h h1 h2 : WorkerHandle (World.money w))
      → Taken (line ∷ []) h h1
      → Taken ls h1 h2
      → Taken (line ∷ ls) h h2
  unfolding reported
  cons-Taken line ls h h1 h2 t u = record {
    quiet = Quiet_trans h h1 h2 t.quiet u.quiet;
    buffer = u.buffer ∙ t.buffer;
    window = λ lines win.
        subst (IsWindow h2.recent_lines) (append_assoc lines (line ∷ []) ls)
          (u.window (lines ++ line ∷ []) (t.window lines win));
    tokens_in = omega (arith, t.tokens_in, u.tokens_in);
    tokens_out = omega (arith, t.tokens_out, u.tokens_out);
  }

  pub take_lines-Taken :
      (now : ℕ) (ls : List Bytes) (p p' : Polled w)
      → take_lines w now ls p ≡ returns p'
      → Taken (texts ls) p.handle p'.handle
  unfolding take_line take_lines texts
  take_lines-Taken now [] p p' e =
      subst (λ (q : Polled w). Taken [] p.handle q.handle) {x = p} {y = p'} (cc e)
        (kept-Taken p.handle)
  take_lines-Taken now (l ∷ ls) p p' e = elim (Bool-cases (is_empty (line_of w l))) [
    | inl blank ↦ rw blank (take_lines-Taken now ls p p' (cc (blank, e)))
    | inr filled ↦
        let line = line_of w l in
        let (q, e1, e2) = >>=-returns (take_line w now line p) (take_lines w now ls) e in
        let (r, h1, h2) =
          >>=-returns (handle_stdout_line w now line p.handle) (λ r. returns (of_handled w r))
            {b = q} (cc (filled, e1)) in
        rw filled (
          cons-Taken line (texts ls) p.handle r.handle p'.handle
            (handle_stdout_line-Taken now line p.handle r h1)
            (take_lines-Taken now ls (of_handled w r) p' (cc (h2, e2))))
  ]
