-- ===== src/Orchestrator/Tests.antt =====
-- Runs of the loop on plans of two tasks, and instances of the theorems about it.
use tab_conductor.Prelude.{
  String, ◌<◌, ◌≡◌, refl, ◌≢◌, Bool, true, false, none, some, List, [], ◌∷◌, arith, length, All,
  all, contains,
}
use tab_conductor.Prelude.Int.{ℤ, pos, ◌≤ℤ◌}
use tab_conductor.Prelude.Call.{raises, returns}
use tab_conductor.Dict.{lookup, insert, remove, has, keys}
use tab_conductor.Dag.{
  check_dag_cycles, visit_all, visit_root, dfs, visit_deps, visit_dep, enter, leave,
}
use tab_conductor.Value.{get, end, null}
use tab_conductor.Value.Number.{to_int}
use tab_conductor.Plan
use tab_conductor.Orchestrator.State.{
  embedded_null, TaskStatus, TaskRecord, Config, Orchestrator, new, record_of, records_of, no_error,
  status_of, status_of_text, graph,
}
use tab_conductor.Orchestrator.Retry.{scaled, backoff, maybe_retry_task}
use tab_conductor.Orchestrator.Ready.{
  is_pending, is_done, is_terminal, done_ids, is_ready, ready_among, get_ready_tasks,
  insert_by_priority, sort_by_priority, all_terminal, all_done,
}
use tab_conductor.Value.Text.{is_empty}
use tab_conductor.Orchestrator.Command.{build_worker_cmd, has_nul, any_nul}
use tab_conductor.Orchestrator.Spawn.{
  started, is_full, spawned, not_spawned, spawn_task, spawn_each, spawn_ready_workers,
}
use tab_conductor.Orchestrator.Exit.{
  is_success, task_exited, report_exit, close_task, close_worker, process_worker_exit,
}
use tab_conductor.Orchestrator.Round.{any_fails}
use tab_conductor.Orchestrator.Round.{
  Turn, stopped, again, round, work, start, finalize, handle_signal, poll_worker, poll_workers,
  exited, process_exits,
}
use tab_conductor.Orchestrator.Invariant.{Inv}
use tab_conductor.Orchestrator.Dispatch.{Fresh}
use tab_conductor.Orchestrator.Reach.{Reach, here, turns}
use tab_conductor.Orchestrator.Initial.{IsUnstarted, run-Inv}
use tab_conductor.Orchestrator.Limit.{run-limit}
use tab_conductor.Orchestrator.Outcome.{IsComplete, run-IsComplete}
use tab_conductor.Orchestrator.Budget.{budget, process_worker_exit-budget}
use tab_conductor.Orchestrator.Priority.{IsSorted, with_priority, sort_by_priority-IsSorted}
use tab_conductor.Orchestrator.Stall.{IsBlocked, round-blocked}

abbrev pub config : Config
config = record {
  max_parallel = pos 1;
  backoff_numerator = 3;
  backoff_denominator = 2;
  backoff_base = 1_000_000_000;
  poll_max = 5_000_000_000;
  mock_mode = false;
  mock_worker_path = none;
  worker_command_template = [];
  cap_text = "1.0";
  deny_tools_default = some "Bash(sudo *)";
  allow_tools_default = none;
}

abbrev task : String → ℤ → List String → Plan.Task
task id retries deps = record {
  extra = end;
  id = id;
  prompt = "write it";
  kind = "claude";
  priority = pos 5;
  max_retries = retries;
  depends_on = deps;
}

abbrev plan : List Plan.Task
plan = task "build" (pos 0) [] ∷ task "test" (pos 0) ("build" ∷ []) ∷ []

unfoldable pub runs : Unit {0}
unfolding any_fails build_worker_cmd has_nul any_nul is_empty get to_int lookup insert remove has
    keys contains all check_dag_cycles visit_all visit_root dfs visit_deps visit_dep enter leave
    graph record_of records_of status_of status_of_text new start handle_signal is_pending is_done
    is_terminal done_ids is_ready ready_among get_ready_tasks insert_by_priority sort_by_priority
    all_terminal all_done scaled backoff maybe_retry_task is_full spawned not_spawned spawn_task
    spawn_each spawn_ready_workers is_success task_exited report_exit close_task close_worker
    process_worker_exit poll_worker poll_workers exited process_exits finalize work round
runs = tt

unstarted : (id : String) (deps : List String) → IsUnstarted (task id (pos 0) deps)
unfolding runs
unstarted id deps = record { status = refl; retries = refl; max_retries = ground arith }

plan-IsUnstarted : All IsUnstarted plan
unfolding runs
plan-IsUnstarted = (unstarted "build" [], (unstarted "test" ("build" ∷ []), tt))

abbrev record_ : String → List String → TaskRecord
record_ id deps = record {
  id = id;
  kind = "claude";
  prompt = "write it";
  status = TaskStatus.pending;
  priority = pos 5;
  depends_on = deps;
  retries = pos 0;
  max_retries = pos 0;
  assigned_to = null;
  started_at = none;
  ended_at = none;
  last_error = no_error;
  retry_at = 0;
}

abbrev first : Orchestrator
first = record {
  config = config;
  tasks = ("build", record_ "build" []) ∷ ("test", record_ "test" ("build" ∷ [])) ∷ [];
  active_handles = [];
  task_worker_map = [];
  halt_event = false;
  exit_code = 0;
  effects = [];
}

new-first : new config plan ≡ returns first
unfolding runs
new-first = refl

-- A turn in which each spawn succeeds with the task's id as the worker's, and a worker that runs exits
-- with the code `code`.
abbrev pub turn : Bool → ℤ → Turn
turn alive code = record {
  now = 10;
  spawns = λ k. record { worker_id = k; result = started 77; clock = 11; wall = 100 };
  fails = λ w. false;
  polls = λ w. record { over_global = false; kill_candidate = false; alive = alive };
  exits = λ w. record { returncode = code; clock = 12; wall = 101 };
  survivors = λ w. false;
}

abbrev pub after : Bool → ℤ → Orchestrator → Orchestrator
after alive code o = elim (round (turn alive code) o) [ returns (again o') ↦ o' | _ ↦ o ]

pub empty-Fresh :
    (alive : Bool) (code : ℤ) (o : Orchestrator)
    → o.active_handles ≡ []
    → Fresh (turn alive code).spawns o
unfolding lookup
empty-Fresh alive code o e = record { apart = λ j k h. h; unused = λ j. rw e refl }

-- a worker that keeps running
abbrev busy : Orchestrator
busy = after true (pos 0) (start first)

first-busy : Reach (start first) busy
unfolding runs
first-busy = turns (turn true (pos 0)) here (empty-Fresh true (pos 0) (start first) refl) refl

run-limit_example : pos (length busy.active_handles) ≤ℤ busy.config.max_parallel
run-limit_example = run-limit config plan first busy (ground arith) new-first first-busy

busy-active : length busy.active_handles ≡ 1
unfolding runs
busy-active = refl

run-Inv_example : Inv busy
run-Inv_example = run-Inv config plan first busy plan-IsUnstarted new-first first-busy

-- both tasks done, and the end of the loop
abbrev built : Orchestrator
built = after false (pos 0) (start first)

abbrev tested : Orchestrator
tested = after false (pos 0) built

first-tested : Reach (start first) tested
unfolding runs
first-tested =
    turns (turn false (pos 0))
      (turns (turn false (pos 0)) here (empty-Fresh false (pos 0) (start first) refl) refl)
      (empty-Fresh false (pos 0) built refl) refl

run-IsComplete_example : IsComplete (finalize tested)
unfolding runs
run-IsComplete_example =
    run-IsComplete config plan first tested (finalize tested) (turn false (pos 0)) plan-IsUnstarted
      new-first first-tested refl refl

-- The worker of the first task fails: the task is given up, and the second waits for it.
abbrev broken : Orchestrator
broken = after false (pos 1) (start first)

first-broken : Reach (start first) broken
unfolding runs
first-broken = turns (turn false (pos 1)) here (empty-Fresh false (pos 1) (start first) refl) refl

broken-IsBlocked : IsBlocked "test" "build" broken
unfolding runs
broken-IsBlocked = record {
  task = record_ "test" ("build" ∷ []);
  found = refl;
  pending = refl;
  waits = refl;
  given_up = refl;
}

broken-next : Reach broken (after false (pos 0) broken)
unfolding runs
broken-next = turns (turn false (pos 0)) here (empty-Fresh false (pos 0) broken refl) refl

round-blocked_example :
    round (turn false (pos 0)) (after false (pos 0) broken) ≢ returns (stopped broken)
unfolding runs
round-blocked_example =
    round-blocked "test" "build" broken (after false (pos 0) broken) broken (turn false (pos 0))
      (run-Inv config plan first broken plan-IsUnstarted new-first first-broken) broken-IsBlocked
      broken-next refl

-- a worker that exits with an error uses up the only attempt of its task
process_worker_exit-budget_example :
    budget
      (process_worker_exit "build" (record { returncode = pos 1; clock = 1; wall = 2 }) busy).tasks
    < budget busy.tasks
unfolding runs
process_worker_exit-budget_example =
    process_worker_exit-budget "build" (record { returncode = pos 1; clock = 1; wall = 2 }) busy
      (record { task_id = "build"; pid = 77 })
      (run-Inv config plan first busy plan-IsUnstarted new-first first-busy) refl

abbrev unsorted : List TaskRecord
unsorted =
    record (record_ "low" []) { priority = pos 1 } ∷ record_ "first" [] ∷ record_ "second" [] ∷ []

sort_by_priority-IsSorted_example :
    IsSorted (sort_by_priority unsorted)
    × ((p : ℤ) → with_priority p (sort_by_priority unsorted) ≡ with_priority p unsorted)
sort_by_priority-IsSorted_example = sort_by_priority-IsSorted unsorted

-- a prompt with a NUL character, which YAML can write, ends the loop
abbrev nul_first : Orchestrator
nul_first = record first { tasks = ("build", record (record_ "build" []) { prompt = "a\0b" }) ∷ [] }

nul_first-raises : round (turn true (pos 0)) (start nul_first) ≡ raises embedded_null
unfolding runs
nul_first-raises = refl
