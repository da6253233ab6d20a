-- ===== src/Runner/Severity.antt =====
-- The signals that a worker's handle has sent, by severity.
use tab_conductor.Prelude.{
  ℕ, ◌-◌, ◌≤◌, ◌≡◌, refl, Bool, true, false, none, some, List, [], ◌∷◌, ◌||◌, arith, All,
  Bool-cases, Option-cases, inl, inr, ap, sym, ◌∙◌, subst,
}
use tab_conductor.Cost.Usd.{Money}
use tab_conductor.Cost.{Signal, sigint, sigterm, sigkill}
use tab_conductor.Runner.Handle.{World, WorkerHandle}
use tab_conductor.Runner.Quiet.{Quiet}
use tab_conductor.Runner.Signals.{
  Sight, escalation_signal, send_stage, is_cost_over, is_stuck, kill_escalation, maybe_escalate,
}

abbrev pub level : Signal → ℕ
level sigint = 0
level sigterm = 1
level sigkill = 2

-- no signal is milder than one before it; the latest first
abbrev pub IsGraded : List Signal → Type 0
IsGraded [] = Unit
IsGraded (s ∷ ss) = All (λ r. level r ≤ level s) ss × IsGraded ss

abbrev is_kill : Signal → Bool
is_kill sigkill = true
is_kill _ = false

unfoldable pub has_kill : List Signal → Bool
has_kill [] = false
has_kill (s ∷ ss) = is_kill s || has_kill ss

escalation_signal_mono :
    (a b : ℕ) → a ≤ b → level (escalation_signal a) ≤ level (escalation_signal b)
unfolding escalation_signal
escalation_signal_mono a b h = ground (arith, h)

All-le :
    {a b : ℕ} (ss : List Signal) → a ≤ b → All (λ r. level r ≤ a) ss → All (λ r. level r ≤ b) ss
All-le [] le all = tt
All-le (s ∷ ss) le all = (omega (arith, le, all.0), All-le ss le all.1)

module _ {m : Money} where
  -- The handle's escalation at the time `time`.
  pub record Escalates (time : ℕ) (h : WorkerHandle m) : Type 0 where
    pub graded : IsGraded h.signals
    pub killed : h.killed ≡ has_kill h.signals
    pub before : h.exit_escalation_started ≡ none → h.signals ≡ []
    pub after :
        (s : ℕ)
        → h.exit_escalation_started ≡ some s
        → (s ≤ time) × All (λ r. level r ≤ level (escalation_signal (time - s))) h.signals

  pub Quiet-Escalates :
      (time : ℕ) (h h' : WorkerHandle m) → Quiet h h' → Escalates time h → Escalates time h'
  Quiet-Escalates time h h' q e = record {
    graded = subst IsGraded (sym q.signals) e.graded;
    killed = q.killed ∙ e.killed ∙ ap has_kill (sym q.signals);
    before = λ none_yet. q.signals ∙ e.before (sym q.started ∙ none_yet);
    after = λ s h1.
        let (le, all) = e.after s (sym q.started ∙ h1) in
        (le, subst (All (λ r. level r ≤ level (escalation_signal (time - s)))) (sym q.signals) all);
  }

  pub later-Escalates : (t1 t2 : ℕ) (h : WorkerHandle m) → t1 ≤ t2 → Escalates t1 h → Escalates t2 h
  later-Escalates t1 t2 h le e = record {
    graded = e.graded;
    killed = e.killed;
    before = e.before;
    after = λ s h1.
        let (le1, all) = e.after s h1 in
        (
          omega (arith, le, le1),
          All-le h.signals (escalation_signal_mono (t1 - s) (t2 - s) (omega (arith, le))) all,
        );
  }

  sent-Escalates :
      (sig : Signal) (now s : ℕ) (h h' : WorkerHandle m)
      → h'.signals ≡ sig ∷ h.signals
      → h'.exit_escalation_started ≡ some s
      → h'.killed ≡ has_kill (sig ∷ h.signals)
      → sig ≡ escalation_signal (now - s)
      → s ≤ now
      → All (λ r. level r ≤ level sig) h.signals
      → IsGraded h.signals
      → Escalates now h'
  sent-Escalates sig now s h h' sent started killed is le milder graded = record {
    graded = subst IsGraded (sym sent) (milder, graded);
    killed = killed ∙ ap has_kill (sym sent);
    before = λ none_yet. cc (started, none_yet);
    after = λ s1 h1.
        subst (λ s. (s ≤ now) × All (λ r. level r ≤ level (escalation_signal (now - s))) h'.signals)
          {x = s} {y = s1} (cc (started, h1))
          (
            le,
            subst (All (λ r. level r ≤ level (escalation_signal (now - s)))) (sym sent) (
                subst (λ g. All (λ r. level r ≤ level g) (sig ∷ h.signals)) is
                  (omega arith, milder)),
          );
  }

  send_stage-Escalates :
      (sig : Signal) (now s : ℕ) (h h' : WorkerHandle m)
      → h.killed ≡ has_kill h.signals
      → h' ≡ send_stage sig (record h { exit_escalation_started = some s })
      → sig ≡ escalation_signal (now - s)
      → s ≤ now
      → All (λ r. level r ≤ level sig) h.signals
      → IsGraded h.signals
      → Escalates now h'
  unfolding has_kill
  send_stage-Escalates sigint now s h h' killed e is le milder graded =
      subst (Escalates now) (sym e)
        (sent-Escalates sigint now s h _ refl refl killed is le milder graded)
  send_stage-Escalates sigterm now s h h' killed e is le milder graded =
      subst (Escalates now) (sym e)
        (sent-Escalates sigterm now s h _ refl refl killed is le milder graded)
  send_stage-Escalates sigkill now s h h' killed e is le milder graded =
      subst (Escalates now) (sym e)
        (sent-Escalates sigkill now s h _ refl refl refl is le milder graded)

module _ (w : World) where
  kill_escalation-Escalates :
      (sight : Sight) (begin now : ℕ) (h : WorkerHandle (World.money w))
      → begin ≤ now
      → Escalates begin h
      → Escalates now (kill_escalation w sight begin now h)
  unfolding kill_escalation
  kill_escalation-Escalates sight begin now h le e =
      elim (Bool-cases (is_cost_over w h || is_stuck w sight h)) [
        | inr fine ↦ rw fine (later-Escalates begin now h le e)
        | inl over ↦ rw over (elim (Option-cases h.exit_escalation_started) [
          | inl first ↦
              send_stage-Escalates (escalation_signal (now - begin)) now begin h _ e.killed
                (rw first refl) refl le (rw (e.before first) tt) e.graded
          | inr (s, started) ↦
              let (le1, milder) = e.after s started in
              send_stage-Escalates (escalation_signal (now - s)) now s h _ e.killed
                (rw started refl) refl (omega (arith, le, le1))
                (All-le h.signals (escalation_signal_mono (begin - s) (now - s) (omega (arith, le)))
                  milder)
                e.graded
        ])
      ]

  pub maybe_escalate-Escalates :
      (first second : Sight) (time begin now : ℕ) (h : WorkerHandle (World.money w))
      → time ≤ begin
      → begin ≤ now
      → Escalates time h
      → Escalates now (maybe_escalate w first second begin now h)
  unfolding maybe_escalate
  maybe_escalate-Escalates first second time begin now h le1 le2 e =
      elim (Bool-cases (is_cost_over w h || is_stuck w first h)) [
        | inl over ↦
            rw over (
              kill_escalation-Escalates second begin now h le2 (later-Escalates time begin h le1 e))
        | inr fine ↦ rw fine (later-Escalates time now h (omega (arith, le1, le2)) e)
      ]
