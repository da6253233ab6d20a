-- ===== src/Cli/Tests.antt =====
-- A plan file that is no UTF-8, and a run that is killed while it finishes.
use tab_conductor.Prelude.{◌≡◌, refl, true, false, none, some, [], ◌∷◌}
use tab_conductor.Prelude.Int.{pos}
use tab_conductor.Prelude.Call.{Call, returns, raises}
use tab_conductor.Value.{Value, null, int, get}
use tab_conductor.Plan.Tests.{plan, parsed, parse-plan}
use tab_conductor.Plan.Accepted.{IsWellFormed}
use tab_conductor.Cost.Tests.{micro, micro_laws}
use tab_conductor.Cost
use tab_conductor.Cost.{bad_per_worker}
use tab_conductor.Orchestrator.File.Tests.{parsed-IsUntouched, run_id, run_id-is_ulid, new-first}
use tab_conductor.Orchestrator.Create.{Ends, create-Ends, create, success, bad_cap}
use tab_conductor.Orchestrator.Schema.{fits_body}
use tab_conductor.Store.{
  Document, document, StoreError, Luck, synced, not_synced, as_is, update, prepare, read_raw,
  atomic_write,
}
use tab_conductor.Plan.Load.{
  size, undecodable, text, loaded, PlanFile, unicode_error, value_error, Python, parse_plan,
  is_plan_parse_error,
}
use tab_conductor.Orchestrator.State.{RunStatus, WorkerStatus, Orchestrator}
use tab_conductor.Orchestrator.Tests.{config}
use tab_conductor.Orchestrator.Document.{Body, initial_body}
use tab_conductor.Cli.{
  code, launches, launch, traceback, validate, kill_workers, write_halting, kill,
}
use tab_conductor.Cli.Launch.{launch-create}
use tab_conductor.Cli.Kill.{Lost, kill-Lost}

runs : Unit {0}
unfolding get prepare read_raw atomic_write update launch parse_plan is_plan_parse_error validate
    kill_workers write_halting kill
runs = tt

abbrev latin : PlanFile
latin = record { stat = size 10; reading = undecodable }

-- a library that reads each text as the value `v`, with a stack that is deep enough
abbrev reads : Value → Python
reads v = record { safe_load = λ s. loaded v; exceeds = λ v. false }

-- a library that chokes on `d: 2024-13-45`
abbrev dates : Python
dates = record { safe_load = λ s. value_error; exceeds = λ v. false }

abbrev dated : PlanFile
dated = record { stat = size 13; reading = text "d: 2024-13-45" }

latin-traceback : validate (reads null) true latin ≡ traceback unicode_error
unfolding runs
latin-traceback = refl

latin-refused : validate (reads null) false latin ≡ code 2
unfolding runs
latin-refused = refl

-- a run whose only worker has exited
abbrev ending : Document (Body micro)
ending = record {
  version = some (pos 8);
  body = record {
    run_id = "01ARZ3NDEKTSV4RRFFQ69G5FAV";
    started_at = 0;
    ended_at = none;
    status = RunStatus.running;
    cost_usd_total = 0;
    cost_cap_usd_global = 1000;
    workers =
        record {
          id = "w1";
          status = WorkerStatus.done;
          pid = 77;
          started_at = 0;
          heartbeat_ts = 0;
          task_id = "build";
        }
        ∷ [];
    tasks = [];
    events = [];
  };
}

abbrev completed : Document (Body micro)
completed = record {
  version = some (pos 9);
  body = record ending.body { status = RunStatus.completed };
}

abbrev fine : Luck
fine = record { locks = true; writes = synced }

abbrev complete : Document (Body micro) → Call StoreError (Document (Body micro))
complete d = returns (record d { body = record d.body { status = RunStatus.completed } })

kill-Lost_example :
    Lost micro
      (λ d. true)
      ending
      completed
      (kill micro
        (λ pid. false)
        true
        (λ file. (update (λ d. true) as_is fine complete file).file)
        (some (document ending))).file
unfolding runs
kill-Lost_example =
    kill-Lost micro (λ d. true) fine complete (λ pid. false) ending completed refl refl

abbrev plan_file : PlanFile
plan_file = record { stat = size 10; reading = text "tasks: ..." }

launch-plan : launch (reads plan) true plan_file none ≡ launches (int (pos 4)) parsed.tasks
unfolding runs
launch-plan = rw parse-plan refl

launch-create_example :
    IsWellFormed parsed.tasks
    × ((o : Orchestrator) × (create micro run_id 3 fine 5000 false config 1000 parsed.tasks none
          ≡ success micro run_id 3 fine 5000 1000 o)
        × (fits_body micro (initial_body micro run_id 3 5000 o) ≡ true))
launch-create_example =
    launch-create (reads plan) micro micro_laws true plan_file none (int (pos 4)) parsed.tasks
      run_id 3 fine 1000 5000 config launch-plan parsed-IsUntouched run_id-is_ulid refl refl refl

refused-cap :
    (create micro run_id 3 fine 5000 false config 0 parsed.tasks none).result
    ≡ raises (bad_cap bad_per_worker)
unfolding create Cost.new
refused-cap = rw new-first refl

abbrev unsynced : Luck
unsynced = record { locks = true; writes = not_synced }

create-Ends_example :
    Ends micro run_id 3 unsynced 5000 config parsed.tasks 1000 none
      (create micro run_id 3 unsynced 5000 false config 1000 parsed.tasks none)
create-Ends_example = create-Ends micro run_id 3 unsynced 5000 false config parsed.tasks 1000 none
