-- ===== src/Orchestrator/File/Tests.antt =====
-- A run of an accepted plan of two tasks, and the state.json that it leaves.
use tab_conductor.Prelude.{
  String, Bool, ◌≡◌, refl, true, false, none, some, List, [], ◌∷◌, arith, All,
}
use tab_conductor.Prelude.Int.{ℤ, pos}
use tab_conductor.Prelude.Call.{returns}
use tab_conductor.Value.{null}
use tab_conductor.Plan.Tests.{plan, parsed, parse-plan}
use tab_conductor.Cost.Tests.{micro, micro_laws}
use tab_conductor.Store.{Document, Luck, synced, as_is, prepare, read_raw, atomic_write, update}
use tab_conductor.Orchestrator.State.{
  RunStatus, WorkerStatus, put_worker, TaskStatus, TaskRecord, Orchestrator, new, no_error,
}
use tab_conductor.Orchestrator.Round.{start}
use tab_conductor.Orchestrator.Reach.{Reach, here, turns}
use tab_conductor.Orchestrator.Document.{Body, Stamp, mutate}
use tab_conductor.Orchestrator.Mirror.{Same}
use tab_conductor.Ulid.Parse.{is_crockford, is_ulid}
use tab_conductor.Orchestrator.Schema.{fits_body}
use tab_conductor.Orchestrator.Sent.{holding, updates}
use tab_conductor.Orchestrator.Starting.{parse_plan_dict-new}
use tab_conductor.Orchestrator.Summary.{Summary, Summarises, read_summary, update-read_summary}
use tab_conductor.Orchestrator.File.{IsUntouched, state_file, run-file}
use tab_conductor.Orchestrator.Tests.{config, runs, turn, after, empty-Fresh}

abbrev waiting : String → String → ℤ → List String → TaskRecord
waiting id prompt priority deps = record {
  id = id;
  kind = "general";
  prompt = prompt;
  status = TaskStatus.pending;
  priority = priority;
  depends_on = deps;
  retries = pos 0;
  max_retries = pos 2;
  assigned_to = null;
  started_at = none;
  ended_at = none;
  last_error = no_error;
  retry_at = 0;
}

abbrev first : Orchestrator
first = record {
  config = config;
  tasks =
      ("lint", waiting "lint" "Run ruff." (pos 7) [])
      ∷ ("verify", waiting "verify" "Run pytest." (pos 5) ("lint" ∷ []))
      ∷ [];
  active_handles = [];
  task_worker_map = [];
  halt_event = false;
  exit_code = 0;
  effects = [];
}

pub new-first : new config parsed.tasks ≡ returns first
unfolding runs
new-first = refl

pub parsed-IsUntouched : All IsUntouched parsed.tasks
unfolding runs
parsed-IsUntouched = (
  record {
    unstarted = record { status = refl; retries = refl; max_retries = ground arith };
    assigned_to = refl;
    last_error = refl;
  },
  (
    record {
      unstarted = record { status = refl; retries = refl; max_retries = ground arith };
      assigned_to = refl;
      last_error = refl;
    },
    tt,
  ),
)

-- the first task exits at once, and the second runs
abbrev linted : Orchestrator
linted = after false (pos 0) (start first)

abbrev verifying : Orchestrator
verifying = after true (pos 0) linted

first-verifying : Reach (start first) verifying
unfolding runs
first-verifying =
    turns (turn true (pos 0))
      (turns (turn false (pos 0)) here (empty-Fresh false (pos 0) (start first) refl) refl)
      (empty-Fresh true (pos 0) linted refl) refl

abbrev luck : Luck
luck = record { locks = true; writes = synced }

abbrev stamp : Stamp micro
stamp = record { now = 5; total_usd = 250 }

abbrev pub run_id : String
run_id = "01ARZ3NDEKTSV4RRFFQ69G5FAV"

pub run_id-is_ulid : is_ulid 26 run_id ≡ true
unfolding is_ulid is_crockford
run_id-is_ulid = refl

run-file_example :
    (b : Body micro) × (state_file micro run_id 3 1000 luck (λ n. luck) (λ n. stamp) first verifying
      ≡ holding (updates micro verifying.effects) b)
    × (fits_body micro b ≡ true)
    × Same b.tasks verifying.tasks
unfolding runs first-verifying
run-file_example =
    run-file micro micro_laws plan parsed config first verifying first-verifying run_id 3 1000 luck
      (λ n. luck) (λ n. stamp) parse-plan parsed-IsUntouched new-first
      ((tt, λ k. (77, refl)), λ k. (77, refl)) run_id-is_ulid refl (λ n. refl)
      (record { locks = refl; writes = refl }) (λ n. record { locks = refl; writes = refl })

parsed-new : (o : Orchestrator) × (new config parsed.tasks ≡ returns o)
unfolding runs
parsed-new = parse_plan_dict-new plan parsed config parse-plan (refl, (refl, tt))

-- a run with one worker that is done, and the start of a second one
abbrev one_done : Body micro
one_done = record {
  run_id = run_id;
  started_at = 3;
  ended_at = none;
  status = RunStatus.running;
  cost_usd_total = 250;
  cost_cap_usd_global = 1000;
  workers =
      record {
        id = "w1";
        status = WorkerStatus.done;
        pid = 12;
        started_at = 4;
        heartbeat_ts = 5;
        task_id = "lint";
      }
      ∷ [];
  tasks = [];
  events = [];
}

abbrev any : Document (Body micro) → Bool
any d = true

abbrev put_second : Document (Body micro) → Document (Body micro)
put_second d = record d {
  body = mutate micro stamp (put_worker "w2" "verify" 13 WorkerStatus.running) d.body;
}

abbrev two_workers : Document (Body micro)
two_workers = record (put_second (record { version = some (pos 3); body = one_done })) {
  version = some (pos 4);
}

update-read_summary_example :
    (s : Summary micro) × (read_summary micro any
        (update any as_is luck (λ d. returns (put_second d)) (holding 3 one_done)).file
      ≡ returns s)
    × Summarises micro two_workers s
unfolding runs update prepare read_raw atomic_write
update-read_summary_example =
    update-read_summary micro any luck (λ d. returns (put_second d)) (holding 3 one_done)
      two_workers refl
