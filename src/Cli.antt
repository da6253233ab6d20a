-- ===== src/Cli.antt =====
-- src/tab_conductor/cli.py: the commands `validate` and `kill`, and how `run` builds the orchestrator. What
-- the commands print is left out.
pub mod Kill
pub mod Validate
pub mod Launch
mod Tests
use tab_conductor.Prelude.{
  ℕ, String, Bool, true, false, Option, none, some, List, [], ◌∷◌, if◌then◌else◌,
}
use tab_conductor.Prelude.Int.{ℤ, pos}
use tab_conductor.Prelude.Call.{Call, returns, raises}
use tab_conductor.Cost.Usd.{Money}
use tab_conductor.Store.{Document, File, document, garbage}
use tab_conductor.Value.{Value, int, Fields, get}
use tab_conductor.Plan.{Task, ParsedPlan, get_or}
use tab_conductor.Plan.Load.{Python, PlanFile, LoadError, is_plan_parse_error, parse_plan}
use tab_conductor.Orchestrator.State.{RunStatus}
use tab_conductor.Orchestrator.Document.{Body, WorkerDict}

-- how a command ends: with an exit code, or with an exception that it does not catch
pub data Ending : Type 0 where
  code : ℕ → Ending
  traceback : LoadError → Ending

abbrev pub ending_of : Call LoadError ParsedPlan → Ending
ending_of (returns p) = code 0
ending_of (raises e) = if is_plan_parse_error e then code 1 else traceback e

-- click.Path(exists=True): `accepted` says whether the path could be read when click looked
abbrev pub after_check : Bool → Ending → Ending
after_check accepted ending = if accepted then ending else code 2

unfoldable pub validate : Python → Bool → PlanFile → Ending
validate python accepted f = after_check accepted (ending_of (parse_plan python f))

-- max_parallel if max_parallel is not None else parsed.metadata.get("max_parallel", 4)
abbrev pub parallel_of : Option ℤ → Fields → Value
parallel_of none metadata = get_or (int (pos 4)) (get "max_parallel" metadata)
parallel_of (some n) metadata = int n

-- `run` up to the call of `Orchestrator`: it ends, or goes on with a value for max_parallel and the tasks
pub data Launched : Type 0 where
  stops : Ending → Launched
  launches : Value → List Task → Launched

abbrev pub launch_plan : Option ℤ → Call LoadError ParsedPlan → Launched
launch_plan max_parallel (returns p) = launches (parallel_of max_parallel p.metadata) p.tasks
launch_plan max_parallel (raises e) = stops (ending_of (raises e))

unfoldable pub launch : Python → Bool → PlanFile → Option ℤ → Launched
launch python accepted f max_parallel =
    if accepted then launch_plan max_parallel (parse_plan python f) else stops (code 2)

-- the exit code of `show`
unfoldable pub show : {A : Type 0} → Option (File A) → ℕ
show none = 1
show (some (garbage text)) = 1
show (some (document st)) = 0

module _ (m : Money) where
  -- the pids to whose process groups SIGTERM could be sent
  unfoldable pub kill_workers : (ℕ → Bool) → List WorkerDict → List ℕ
  kill_workers alive [] = []
  kill_workers alive (w ∷ ws) =
      let rest = kill_workers alive ws in if alive w.pid then w.pid ∷ rest else rest

  -- st["status"] = "halting"
  abbrev pub mark_halting : Document (Body m) → Document (Body m)
  mark_halting st = record st { body = record st.body { status = RunStatus.halting } }

  -- the write, which takes no lock, over what the file holds by then
  unfoldable pub write_halting :
      Bool → Document (Body m) → Option (File (Body m)) → Option (File (Body m))
  write_halting writes st file = if writes then some (document (mark_halting st)) else file

  pub record Killed : Type 0 where
    pub code : ℕ
    pub signalled : List ℕ
    pub file : Option (File (Body m))

  abbrev pub finish_kill : Bool → List ℕ → Document (Body m) → Option (File (Body m)) → Killed
  finish_kill writes [] st file = record {
    code = 0;
    signalled = [];
    file = write_halting writes st file;
  }
  finish_kill writes (pid ∷ pids) st file = record { code = 0; signalled = pid ∷ pids; file = file }

  -- `meanwhile` is what other processes do to the file between the read and the write
  unfoldable pub kill :
      (ℕ → Bool)
      → Bool
      → (Option (File (Body m)) → Option (File (Body m)))
      → Option (File (Body m))
      → Killed
  kill alive writes meanwhile none = record { code = 1; signalled = []; file = meanwhile none }
  kill alive writes meanwhile (some (garbage text)) = record {
    code = 1;
    signalled = [];
    file = meanwhile (some (garbage text));
  }
  kill alive writes meanwhile (some (document st)) =
      finish_kill writes (kill_workers alive st.body.workers) st (meanwhile (some (document st)))
