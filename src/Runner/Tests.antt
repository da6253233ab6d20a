-- ===== src/Runner/Tests.antt =====
-- A worker whose result line is cut by two reads and takes it over its budget.
use tab_conductor.Prelude.{
  ℕ, ◌≡◌, refl, true, false, none, some, [], ◌∷◌, ◌==◌, arith, leb, if◌then◌else◌,
}
use tab_conductor.Prelude.Int.{pos}
use tab_conductor.Prelude.Call.{Call, returns, raises}
use tab_conductor.Dict.{lookup, insert}
use tab_conductor.Value.{dict, int, str, field, end, get}
use tab_conductor.Value.Text.{is_space, is_empty, rstrip}
use tab_conductor.Value.Number.{to_int}
use tab_conductor.Cost.{
  CostGuard, WorkerStats, sigint, add_usage, record_usage, charge, check, classify, total_usd,
}
use tab_conductor.Cost.Tests.{micro}
use tab_conductor.Stuck.{
  StuckDetector, ended, live, warn_capture, register, update_heartbeat, update_capture, assess,
  is_elapsed, pgrep_alive,
}
use tab_conductor.Stuck
use tab_conductor.Runner.Lines.{Bytes, split_lines, drop, push_line}
use tab_conductor.Runner.Handle.{
  RunnerError, World, WorkerHandle, new, spawn, no_mapping, token_count, handle_result,
  handle_parsed, handle_stdout_line,
}
use tab_conductor.Runner.Signals.{escalation_signal, kill_escalation, maybe_escalate}
use tab_conductor.Runner.Poll.{
  Polled, Moment, stdout, join_lines, take_line, take_lines, read_stdout, take_error_line,
  take_error_lines, read_stderr, read_each, update_sample, beat, after_reading, poll_once,
}
use tab_conductor.Runner.Charged.{own}
use tab_conductor.Runner.Reads.{Reads, stdout_of}
use tab_conductor.Runner.Severity.{Escalates}
use tab_conductor.Runner.Supervise.{Glance, Supervised, supervise}
use tab_conductor.Runner.Patience.{Turns, supervise-not_kill}
use tab_conductor.Runner.Watch.{Polls, here, polls, Polls-Reads, Polls-Escalates}
use tab_conductor.Runner.Causes.{Signalled, poll_once-Signalled}

-- a line that starts with 1 is the number, any other the result
abbrev world : World
world = record {
  money = micro;
  worker_id = "w1";
  decode = λ bytes. elim bytes [ [] ↦ "" | b ∷ bs ↦ if leb b 49 then "1" else "done " ];
  loads = λ text.
      if text == "1"
      then some (int (pos 1))
      else some (
          dict (
            field "type" (str "result")
              (field "usage" (dict (field "input_tokens" (int (pos 700)) end)) end)));
  breaks = λ text. false;
  amount_of = λ v. none;
  sha256 = λ text. text;
}

abbrev guard : CostGuard micro
guard = record { per_worker_usd = 1_000; global_usd = 1_000_000; workers = [] }

abbrev fresh : WorkerHandle micro
fresh = spawn world 77 "build" 0 0 true guard (Stuck.new 30 3 600)

abbrev moment : ℕ → Bytes → Moment
moment now chunk = record {
  mono = now;
  utc = now;
  ready = some ((stdout, chunk) ∷ []);
  charged = now;
  first_sight = record { utc = now; pgrep = λ pid. ended (pos 0) };
  second_sight = record { utc = now; pgrep = λ pid. ended (pos 0) };
  begin = now;
  now = now;
}

runs : Unit {0}
unfolding lookup insert get is_space is_empty rstrip to_int add_usage record_usage charge check
    classify total_usd register update_heartbeat update_capture assess is_elapsed pgrep_alive
    Stuck.check split_lines drop push_line new spawn token_count handle_result handle_parsed
    handle_stdout_line escalation_signal kill_escalation maybe_escalate join_lines take_line
    take_lines read_stdout take_error_line take_error_lines read_stderr read_each update_sample beat
    after_reading poll_once stdout_of supervise
runs = tt

abbrev nothing : Call RunnerError (Polled world) → Polled world
nothing (returns p) = p
nothing (raises e) = record { event = none; handle = fresh }

abbrev half : Polled world
half = nothing (poll_once world (moment 1 (100 ∷ 111 ∷ [])) fresh)

abbrev whole : Polled world
whole = nothing (poll_once world (moment 2 (10 ∷ 100 ∷ [])) half.handle)

fresh-whole : Polls world fresh 2 (100 ∷ 111 ∷ 10 ∷ 100 ∷ []) whole.handle
unfolding runs
fresh-whole =
    polls (moment 2 (10 ∷ 100 ∷ [])) whole
      (polls (moment 1 (100 ∷ 111 ∷ [])) half here (omega arith) (omega arith) refl) (omega arith)
      (omega arith) refl

whole-signals : whole.handle.signals ≡ sigint ∷ []
unfolding runs
whole-signals = refl

whole-tokens : WorkerStats.tokens_in (own world whole.handle.cost_guard) ≡ 700
unfolding runs
whole-tokens = refl

Polls-Reads_example : Reads world fresh (100 ∷ 111 ∷ 10 ∷ 100 ∷ []) whole.handle
Polls-Reads_example =
    Polls-Reads world 77 "build" 0 0 true guard (Stuck.new 30 3 600) 2 (100 ∷ 111 ∷ 10 ∷ 100 ∷ [])
      whole.handle fresh-whole

Polls-Escalates_example : Escalates 2 whole.handle
Polls-Escalates_example =
    Polls-Escalates world 77 "build" 0 0 true guard (Stuck.new 30 3 600) 2
      (100 ∷ 111 ∷ 10 ∷ 100 ∷ []) whole.handle fresh-whole

poll_once-Signalled_example :
    Signalled world (moment 2 (10 ∷ 100 ∷ [])).second_sight half.handle whole.handle
unfolding runs
poll_once-Signalled_example =
    poll_once-Signalled world (moment 2 (10 ∷ 100 ∷ [])) half.handle whole refl

-- a turn eleven minutes after the start of a worker that has said nothing
abbrev late : Moment
late = moment 660_000_000_000 []

abbrev late_in_step : Moment
late_in_step = record late { utc = 660_000_000 }

abbrev glance : Glance
glance = record {
  sight = record { utc = 661_000_000; pgrep = λ pid. ended (pos 0) };
  begin = 0;
  now = 0;
  alive = true;
}

abbrev silent : Supervised world
silent = elim (supervise world late_in_step glance fresh) [
  | returns s ↦ s
  | raises e ↦ record {
    verdict = record { over_global = false; kill_candidate = true; alive = false };
    handle = fresh;
  }
]

supervise-not_kill_example : silent.verdict.kill_candidate ≡ false
unfolding runs
supervise-not_kill_example =
    supervise-not_kill world 0 0 1_000_000_000 77 "build" 0 0 true guard (Stuck.new 30 3 600) fresh
      late_in_step glance silent (omega arith) (omega arith) Turns.here
      (record { in_step = omega arith; prompt = omega arith }) refl

number-raises : poll_once world (moment 1 (49 ∷ 10 ∷ [])) fresh ≡ raises no_mapping
unfolding runs
number-raises = refl
