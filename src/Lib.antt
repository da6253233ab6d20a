-- ===== src/Lib.antt =====
-- tab-conductor: a supervisor that runs the tasks of a plan as worker processes.
--
-- The program (paths from the repository's root). `src/tab_conductor/plan_parser.py` checks a plan that
-- YAML has loaded. `src/tab_conductor/orchestrator.py` runs it: a loop that spawns a worker for each
-- task whose dependencies are done, polls the workers, and retries a task or gives it up when its
-- worker fails. `runner.py` starts a worker with a filtered environment, reads its output, charges its
-- usage to the cost guard, and sends it signals. The loop asks `cost_guard.py` and `stuck_detector.py` for
-- verdicts on a worker, and writes the run's state through the store of `state.py`, which the command line
-- (`cli.py`) uses from other processes. `secret_filter.py` says which files no worker may read,
-- `hmac_signer.py` signs payloads, and `query.py` looks into the run's state by dotted paths.
--
-- Which file models which part:
--   Prelude      shared names: tests on numbers, lists, integers, calls that return or raise
--   Dict         Python's dict with string keys, in insertion order
--   Value        loaded YAML and JSON values, `str.strip` (Value/Text) and `int()` (Value/Number)
--   Dag          the depth-first search of plan_parser.py `_check_dag_cycles` and of orchestrator.py
--                `Orchestrator._check_dag_cycles`, which differ in how they treat unknown dependencies
--   Plan         plan_parser.py `_validate_task` and `parse_plan_dict`; `parse_plan` in Plan/Load
--   Cost         cost_guard.py `CostGuard`
--   Stuck        stuck_detector.py `StuckDetector`
--   Hmac         hmac_signer.py `HmacSigner`
--   Store        state.py `StateStore`: one call in Store/Serial, calls of several processes in
--                Store/Concurrent, `_flock_with_timeout` in Store/Lock
--   Query        query.py: the regular expressions in Query/Text
--   Ulid         ulid.py `new`, and `parse` in Ulid/Parse
--   Secret       secret_filter.py `assert_allowed` and its deny list: `fnmatch` in Secret/Glob
--   Runner       runner.py: Env (`build_worker_env`, `spawn`), Lines (the cutting of output into lines),
--                Handle (`_handle_stdout_line`), Signals (`kill_escalation` to `kill`), Poll (`poll_once`),
--                Close (`collect_remaining_output`, `close`), and Supervise for what the loop of
--                orchestrator.py asks of one worker in a turn; Charged, Taken, Keeps and Reads for the
--                equivalence with a reading of the whole output, Severity and Watch for the signals,
--                Causes for when they are sent, Returns for when a poll raises, Steadfast and Patience for
--                the stuck detector's part
--   Orchestrator orchestrator.py `Orchestrator`: State (`__init__` and the records), Retry
--                (`_maybe_retry_task`), Ready (`_get_ready_tasks`, `_all_tasks_terminal`), Command
--                (`_build_worker_cmd`), Spawn (`_spawn_ready_workers`), Exit (`_process_worker_exit`), Round
--                (`_supervisor_loop`, `_finalize`, `_do_halt`, `_handle_signal`), Document (`_init_state` and
--                the updates sent to the store); then Invariant, Steps, Starts, Dispatch and Reach for the
--                invariant of the loop; Initial, Limit, Outcome, Budget, Priority, Frame and Stall for what
--                else is shown of it; Records, Mirror, Schema, Saved, Sent and File for what a run leaves in
--                state.json; Create for `__init__` with its guards and the file; Summary for `read_summary` of
--                state.py
--   Cli          cli.py: `validate`, `kill`, and how `run` comes from a plan file to an orchestrator
--
-- How it is modelled. A method becomes a function from a state to a state; one that may raise gives a
-- `Call`, which returns a value or raises an exception. An object that the code shares and changes is
-- an entry of its dictionary. What a method learns from outside is an argument: clock readings, new
-- ids, the results of spawns, exit codes, the guards' verdicts in a turn of the loop, the bytes that a
-- read gives, the answer of pgrep, the fate of a lock and a write. Digests, the canonical JSON text,
-- the check against the JSON schema, json.loads, what JSON gives back of a document, yaml.safe_load,
-- Python's recursion limit, the decoding of UTF-8, the expansion and resolution of paths, and the
-- arithmetic of US dollars (with its laws, Cost/Usd) are parameters. Times are whole nanoseconds in
-- the orchestrator, the runner and the store's lock, and whole microseconds in the stuck detector; the
-- backoff, a float in the code, is a fraction that is rounded down. Signals arrive between the turns
-- of the loop.
--
-- The search of Dag runs on fuel, the number of tasks: the calls in progress are on distinct tasks, so
-- the fuel is never used up, which is part of its theorem. The polling of the lock runs on fuel as well;
-- each poll that fails sleeps, so its theorem gives a number of polls that is enough for every timeout.
-- All other recursion is structural.
--
-- Not modelled: floats that `sum` adds with compensation, as Python does from 3.12 on; log events; the files and directories of a run apart
-- from state.json; the processes themselves, which a worker's handle knows by their output and exit
-- code only; the help texts and printed output of cli.py and its commands `ls`, `watch` and
-- `bugreport`; the patterns of plan_parser.py `redact_text`; schema.py, logging_config.py and
-- tmux_dashboard.py.
pub mod Prelude
pub mod Dict
pub mod Dag
pub mod Value
pub mod Plan
pub mod Cost
pub mod Orchestrator
pub mod Stuck
pub mod Hmac
pub mod Store
pub mod Runner
pub mod Secret
pub mod Cli
pub mod Query
pub mod Ulid
