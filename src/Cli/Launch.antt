-- ===== src/Cli/Launch.antt =====
-- From the plan file to the orchestrator: `run` of cli.py.
use tab_conductor.Prelude.{
  ℕ, none, All, Bool, true, false, String, ◌≡◌, refl, Option, List, inl, inr, Bool-cases, ltb,
  subst, sym,
}
use tab_conductor.Prelude.Int.{ℤ}
use tab_conductor.Prelude.Call.{Call, returns, raises}
use tab_conductor.Value.{Value, dict}
use tab_conductor.Plan
use tab_conductor.Plan.{Error, dependency_cycle, ParsedPlan, parse_plan_dict}
use tab_conductor.Plan.Accepted.{IsWellFormed, parse_plan_dict-IsWellFormed}
use tab_conductor.Plan.Load.{
  Stat, missing, no_stat, size, Reading, unreadable, undecodable, text, Loaded, loaded, yaml_error,
  value_error, recursion_error, Python, PlanFile, LoadError, lift_error, parse_loaded, parse_text,
  parse_sized, parse_plan, max_file_size,
}
use tab_conductor.Cost.Usd.{Money, MoneyLaws}
use tab_conductor.Store.{Luck, synced}
use tab_conductor.Ulid.Parse.{is_ulid}
use tab_conductor.Orchestrator.State.{Config, Orchestrator}
use tab_conductor.Orchestrator.Document.{initial_body}
use tab_conductor.Orchestrator.Schema.{fits_body}
use tab_conductor.Orchestrator.File.{IsUntouched}
use tab_conductor.Orchestrator.Create.{create, success, parse_plan_dict-create}
use tab_conductor.Cli.{launches, launch_plan, launch}

lift_error-returns :
    (exceeded : Bool) (c : Call Error ParsedPlan) {p : ParsedPlan}
    → lift_error exceeded c ≡ returns p
    → c ≡ returns p
lift_error-returns false (returns q) h = cc h
lift_error-returns true (returns q) h = cc h
lift_error-returns false (raises (dependency_cycle path dep)) h = cc h
lift_error-returns true (raises (dependency_cycle path dep)) h = cc h
lift_error-returns exceeded (raises _) h = cc h

module _ (python : Python) where
  parse_loaded-dict :
      (l : Loaded) {p : ParsedPlan}
      → parse_loaded python l ≡ returns p
      → (v : Value) × (parse_plan_dict v ≡ returns p)
  parse_loaded-dict (yaml_error line) h = cc h
  parse_loaded-dict value_error h = cc h
  parse_loaded-dict recursion_error h = cc h
  parse_loaded-dict (loaded (dict fs)) h =
      (dict fs, lift_error-returns (Python.exceeds python (dict fs)) (parse_plan_dict (dict fs)) h)
  parse_loaded-dict (loaded _) h = cc h

  parse_sized-dict :
      (t : Stat) (r : Reading) {p : ParsedPlan}
      → parse_sized python t r ≡ returns p
      → (v : Value) × (parse_plan_dict v ≡ returns p)
  parse_sized-dict missing r h = cc h
  parse_sized-dict no_stat r h = cc h
  parse_sized-dict (size n) r h = elim (Bool-cases (ltb max_file_size n)) [
    | inl large ↦ cc (large, h)
    | inr small ↦ in_text r (cc (small, h))
  ]
    where
      in_text :
          (r : Reading) {p : ParsedPlan}
          → parse_text python r ≡ returns p
          → (v : Value) × (parse_plan_dict v ≡ returns p)
      in_text unreadable h = cc h
      in_text undecodable h = cc h
      in_text (text s) h = parse_loaded-dict (Python.safe_load python s) h

  launch_plan-returns :
      (max_parallel : Option ℤ) (c : Call LoadError ParsedPlan) {v : Value} {ts : List Plan.Task}
      → launch_plan max_parallel c ≡ launches v ts
      → (p : ParsedPlan) × (c ≡ returns p) × (p.tasks ≡ ts)
  launch_plan-returns max_parallel (returns p) h = (p, refl, cc h)
  launch_plan-returns max_parallel (raises e) h = cc h

  launch-launches :
      (accepted : Bool) (f : PlanFile) (max_parallel : Option ℤ) {v : Value} {ts : List Plan.Task}
      → launch python accepted f max_parallel ≡ launches v ts
      → launch_plan max_parallel (parse_sized python f.stat f.reading) ≡ launches v ts
  unfolding launch parse_plan
  launch-launches true f max_parallel h = h
  launch-launches false f max_parallel h = cc h

  -- If `run` gets from the plan file to the call of `Orchestrator`, no task of the plan was touched before, the
  -- search for cycles does not exceed Python's stack there, the new run's id is an identifier, neither cap is
  -- zero or below, and the write succeeds, then the tasks are well-formed as a whole, and for every other
  -- configuration `__init__` returns an orchestrator with its guards, and state.json holds its first document,
  -- of version 0, which fits the schema.
  pub launch-create :
      (m : Money) (laws : MoneyLaws m) (accepted : Bool) (f : PlanFile) (max_parallel : Option ℤ)
      (v : Value) (ts : List Plan.Task) (run_id : String) (now : ℕ) (luck : Luck)
      (per_worker_usd global_usd : Money.Amount m) (config : Config)
      → launch python accepted f max_parallel ≡ launches v ts
      → All IsUntouched ts
      → is_ulid 26 run_id ≡ true
      → Money.le_usd m per_worker_usd (Money.zero_usd m) ≡ false
      → Money.le_usd m global_usd (Money.zero_usd m) ≡ false
      → luck.writes ≡ synced
      → IsWellFormed ts
        × ((o : Orchestrator) × (create m run_id now luck global_usd false config per_worker_usd ts
                none
              ≡ success m run_id now luck global_usd per_worker_usd o)
            × (fits_body m (initial_body m run_id now global_usd o) ≡ true))
  launch-create m laws accepted f max_parallel v ts run_id now luck per_worker_usd global_usd config
        h us id worker global writes =
      let (p, parsed, tasks) =
        launch_plan-returns max_parallel (parse_sized python f.stat f.reading)
          (launch-launches accepted f max_parallel h) in
      let (top, read) = parse_sized-dict f.stat f.reading parsed in
      let (o, made, created, fits) =
        parse_plan_dict-create m run_id now luck global_usd laws top p config per_worker_usd read
          (subst (All IsUntouched) (sym tasks) us) id worker global writes in
      (
        subst IsWellFormed tasks (parse_plan_dict-IsWellFormed top p read),
        (
          o,
          subst
              (λ ts.
                create m run_id now luck global_usd false config per_worker_usd ts none
                ≡ success m run_id now luck global_usd per_worker_usd o)
              tasks created,
          fits,
        ),
      )
