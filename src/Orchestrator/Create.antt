-- ===== src/Orchestrator/Create.antt =====
-- `__init__` as a whole: after the tasks and the check of their graph, which `new` of State models, come the
-- guards, and the file. The directories of the run are left out.
use tab_conductor.Prelude.{some, ◌⊎◌, inl, inr, Bool-cases}
use tab_conductor.Prelude.{
  ℕ, String, ◌≡◌, refl, Bool, true, false, Option, none, List, [], ◌∷◌, All, if◌then◌else◌,
}
use tab_conductor.Prelude.Call.{Call-cases, Call, returns, raises}
use tab_conductor.Value.{Value}
use tab_conductor.Cost
use tab_conductor.Cost.{CostGuard, CostError}
use tab_conductor.Cost.Usd.{Money, MoneyLaws}
use tab_conductor.Stuck
use tab_conductor.Stuck.{StuckDetector}
use tab_conductor.Plan
use tab_conductor.Plan.Accepted.{parse_plan_dict-IsWellFormed}
use tab_conductor.Store.{
  Document, File, StoreError, Luck, Write, synced, not_replaced, not_synced, os_error,
  already_exists, invalid, as_is, init, atomic_write,
}
use tab_conductor.Ulid.Parse.{is_ulid}
use tab_conductor.Orchestrator.State.{Config, Orchestrator, OrchestratorError, bad_integer, new}
use tab_conductor.Orchestrator.Initial.{new-Inv}
use tab_conductor.Orchestrator.Document.{Body, initial_body}
use tab_conductor.Orchestrator.Schema.{fits_body, fits_schema}
use tab_conductor.Orchestrator.Sent.{holding}
use tab_conductor.Orchestrator.Starting.{HasNoRetries, parse_plan_dict-new}
use tab_conductor.Orchestrator.File.{IsUntouched, initial, initial-fits, new-Fit, All-IsUnstarted}

-- what `__init__` raises; `too_deep` is the RecursionError of a search that goes deeper than Python's stack
pub data InitError : Type 0 where
  bad_task : OrchestratorError → InitError
  too_deep : InitError
  bad_cap : CostError → InitError
  bad_store : StoreError → InitError

-- the tasks and their check; `exceeded` says whether the search, which comes last, exceeds the stack
abbrev pub checked : Bool → Call OrchestratorError Orchestrator → Call InitError Orchestrator
checked exceeded (raises (bad_integer e)) = raises (bad_task (bad_integer e))
checked exceeded (raises e) = if exceeded then raises too_deep else raises (bad_task e)
checked exceeded (returns o) = if exceeded then raises too_deep else returns o

HasNoRetries-IsUntouched : (ts : List Plan.Task) → All IsUntouched ts → HasNoRetries ts
HasNoRetries-IsUntouched [] us = tt
HasNoRetries-IsUntouched (t ∷ ts) us = (us.0.unstarted.retries, HasNoRetries-IsUntouched ts us.1)

module _ (m : Money) where
  -- the orchestrator with its guards
  pub record Created : Type 0 where
    pub orchestrator : Orchestrator
    pub cost_guard : CostGuard m
    pub stuck_detector : StuckDetector

  -- the end of `__init__`, and state.json after it
  pub record Creation : Type 0 where
    pub result : Call InitError Created
    pub file : Option (File (Body m))

  abbrev pub finish :
      Orchestrator → CostGuard m → Call StoreError (Document (Body m)) → Call InitError Created
  finish o g (raises e) = raises (bad_store e)
  finish o g (returns d) =
      returns (record { orchestrator = o; cost_guard = g; stuck_detector = Stuck.new 60 3 600 })

  module _ (run_id : String) (now : ℕ) (luck : Luck) (global_usd : Money.Amount m) where
    abbrev pub with_guard :
        Option (File (Body m)) → Orchestrator → Call CostError (CostGuard m) → Creation
    with_guard file o (raises e) = record { result = raises (bad_cap e); file = file }
    with_guard file o (returns g) =
        let e = init (fits_schema m) as_is luck (initial m run_id now global_usd o) file in
        record { result = finish o g e.result; file = e.file }

    abbrev pub with_tasks :
        Money.Amount m → Option (File (Body m)) → Call InitError Orchestrator → Creation
    with_tasks per_worker_usd file (raises e) = record { result = raises e; file = file }
    with_tasks per_worker_usd file (returns o) =
        with_guard file o (Cost.new m per_worker_usd global_usd)

    -- Orchestrator.__init__
    unfoldable pub create :
        Bool → Config → Money.Amount m → List Plan.Task → Option (File (Body m)) → Creation
    create exceeded config per_worker_usd tasks file =
        with_tasks per_worker_usd file (checked exceeded (new config tasks))

    -- what a successful `__init__` leaves for the orchestrator `o`
    abbrev pub success : Money.Amount m → Orchestrator → Creation
    success per_worker_usd o = record {
      result = returns (record {
        orchestrator = o;
        cost_guard = record {
          per_worker_usd = per_worker_usd;
          global_usd = global_usd;
          workers = [];
        };
        stuck_detector = Stuck.new 60 3 600;
      });
      file = holding 0 (initial_body m run_id now global_usd o);
    }

    -- `__init__` on a plan that the parser has accepted
    pub parse_plan_dict-create :
        (laws : MoneyLaws m) (v : Value) (p : Plan.ParsedPlan) (config : Config)
        (per_worker_usd : Money.Amount m)
        → Plan.parse_plan_dict v ≡ returns p
        → All IsUntouched p.tasks
        → is_ulid 26 run_id ≡ true
        → Money.le_usd m per_worker_usd (Money.zero_usd m) ≡ false
        → Money.le_usd m global_usd (Money.zero_usd m) ≡ false
        → luck.writes ≡ synced
        → (o : Orchestrator) × (new config p.tasks ≡ returns o)
          × (create false config per_worker_usd p.tasks none ≡ success per_worker_usd o)
          × (fits_body m (initial_body m run_id now global_usd o) ≡ true)
    unfolding create Cost.new init atomic_write fits_schema
    parse_plan_dict-create laws v p config per_worker_usd accepted us id worker global writes =
        let (o, made) =
          parse_plan_dict-new v p config accepted (HasNoRetries-IsUntouched p.tasks us) in
        let i = new-Inv config p.tasks o (All-IsUnstarted p.tasks us) made in
        let f =
          new-Fit config p.tasks o us (parse_plan_dict-IsWellFormed v p accepted).valid made in
        let limit = laws.le_of_not_le global_usd (Money.zero_usd m) global in
        let fits = initial-fits m run_id now global_usd laws id limit o i f in
        (o, made, rw (made, worker, global, writes, fits) refl, fits)

    -- what a call of `__init__` that got to the write leaves
    abbrev pub IsWritten : Orchestrator → Option (File (Body m)) → Creation → Type 0
    IsWritten o file e =
        (file ≡ none)
        × (e.file ≡ holding 0 (initial_body m run_id now global_usd o))
        × (fits_schema m (initial m run_id now global_usd o) ≡ true)

    -- how `__init__` ends: with the orchestrator and its first document, with an error and the file as it was,
    -- or with an error and that document
    abbrev pub Ends :
        Config → List Plan.Task → Money.Amount m → Option (File (Body m)) → Creation → Type 0
    Ends config tasks per_worker_usd file e =
        ((c : Created) × (e.result ≡ returns c)
          × (new config tasks ≡ returns c.orchestrator)
          × (Cost.new m per_worker_usd global_usd ≡ returns c.cost_guard)
          × (luck.writes ≡ synced)
          × IsWritten c.orchestrator file e)
        ⊎ (((x : InitError) × (e.result ≡ raises x) × (e.file ≡ file))
            ⊎ ((o : Orchestrator) × (e.result ≡ raises (bad_store os_error))
                × (new config tasks ≡ returns o)
                × (luck.writes ≡ not_synced)
                × IsWritten o file e))

    checked-returns :
        (exceeded : Bool) (c : Call OrchestratorError Orchestrator) (o : Orchestrator)
        → checked exceeded c ≡ returns o
        → c ≡ returns o
    checked-returns true (raises (bad_integer e)) o h = cc h
    checked-returns false (raises (bad_integer e)) o h = cc h
    checked-returns true (raises _) o h = cc h
    checked-returns false (raises _) o h = cc h
    checked-returns true (returns c) o h = cc h
    checked-returns false (returns c) o h = cc h

    with_guard-Ends :
        (config : Config) (tasks : List Plan.Task) (per_worker_usd : Money.Amount m)
        (file : Option (File (Body m))) (o : Orchestrator) (c : Call CostError (CostGuard m))
        (writes : Write)
        → luck.writes ≡ writes
        → new config tasks ≡ returns o
        → Cost.new m per_worker_usd global_usd ≡ c
        → Ends config tasks per_worker_usd file (with_guard file o c)
    unfolding init atomic_write
    with_guard-Ends config tasks per_worker_usd file o (raises e) writes w made guard =
        inr (inl (bad_cap e, refl, refl))
    with_guard-Ends config tasks per_worker_usd (some f) o (returns g) writes w made guard =
        inr (inl (bad_store already_exists, refl, refl))
    with_guard-Ends config tasks per_worker_usd none o (returns g) writes w made guard =
        elim (Bool-cases (fits_schema m (initial m run_id now global_usd o))) [
          | inl fits ↦ written writes w fits
          | inr bad ↦ inr (inl (bad_store invalid, rw bad refl, rw bad refl))
        ]
      where
        written :
            (writes : Write)
            → luck.writes ≡ writes
            → fits_schema m (initial m run_id now global_usd o) ≡ true
            → Ends config tasks per_worker_usd none (with_guard none o (returns g))
        written synced w fits = inl (
          record { orchestrator = o; cost_guard = g; stuck_detector = Stuck.new 60 3 600 },
          rw (fits, w) refl,
          made,
          guard,
          w,
          (refl, rw (fits, w) refl, fits),
        )
        written not_replaced w fits =
            inr (inl (bad_store os_error, rw (fits, w) refl, rw (fits, w) refl))
        written not_synced w fits =
            inr (inr (o, rw (fits, w) refl, made, w, (refl, rw (fits, w) refl, fits)))

    -- `__init__` ends in one of three ways. It returns an orchestrator of the tasks with a guard of the caps, and
    -- state.json, which was not there, holds its first document, of version 0, which fits the schema; or it
    -- raises, and state.json is what it was; or the directory could not be synced, it raises an OSError, and
    -- state.json holds that document all the same.
    pub create-Ends :
        (exceeded : Bool) (config : Config) (tasks : List Plan.Task)
        (per_worker_usd : Money.Amount m) (file : Option (File (Body m)))
        → Ends config tasks per_worker_usd file (create exceeded config per_worker_usd tasks file)
    unfolding create
    create-Ends exceeded config tasks per_worker_usd file =
        elim (Call-cases (checked exceeded (new config tasks))) [
          | inl (o, made) ↦ rw made (
              with_guard-Ends config tasks per_worker_usd file o
                (Cost.new m per_worker_usd global_usd) luck.writes refl
                (checked-returns exceeded (new config tasks) o made) refl)
          | inr (e, failed) ↦ rw failed (inr (inl (e, refl, refl)))
        ]
