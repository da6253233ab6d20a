-- ===== src/Runner/Handle.antt =====
-- `WorkerEvent`, `WorkerHandle`, and `_handle_stdout_line`. The times of events are left out.
use tab_conductor.Prelude.{
  ℕ, zero, String, Bool, true, false, not, Option, none, some, List, [], ◌∷◌, ◌==◌, if◌then◌else◌,
}
use tab_conductor.Prelude.Int.{ℤ, pos}
use tab_conductor.Prelude.Call.{Call, returns, raises, ◌>>=◌}
use tab_conductor.Value.{
  ratio, Value, null, bool, int, float, str, list, dict, nil, Fields, end, get,
}
use tab_conductor.Value.Text.{is_empty}
use tab_conductor.Value.Number.{IntError, to_int}
use tab_conductor.Plan.{get_or}
use tab_conductor.Cost.Usd.{Money}
use tab_conductor.Cost.{CostGuard, CostError, Signal, add_usage}
use tab_conductor.Stuck.{StuckDetector, register}
use tab_conductor.Runner.Lines.{Bytes, push_line}

pub data WorkerEvent : Type 0 where
  heartbeat : WorkerEvent
  stdout_raw stderr : String → WorkerEvent
  stdout_json result : Fields → WorkerEvent
  usage : ℤ → ℤ → Value → WorkerEvent
  -- returncode, remaining_output
  exit : ℤ → String → WorkerEvent
  -- pid, task_id
  spawned : ℕ → String → WorkerEvent

-- What no handler catches: the AttributeError of `.get`, the errors of `int()` and of `add_usage`, the
-- TypeError of `+=` with a cost that is no number, and the errors of a line that breaks (see `World`).
pub data RunnerError : Type 0 where
  no_mapping bad_cost broken_line : RunnerError
  bad_count : IntError → RunnerError
  refused_usage : CostError → RunnerError

-- The worker's id, and what stands outside of the code: amounts of USD, `bytes.decode`, `json.loads` with
-- `none` for its ValueError, the lines that break, on which `json.loads` raises a RecursionError or whose object
-- holds a lone surrogate, with a UnicodeEncodeError when the event is written, the amount that a value adds to a float with `none` for a TypeError, and SHA-256.
pub record World : Type 1 where
  pub money : Money
  pub worker_id : String
  pub decode : Bytes → String
  pub loads : String → Option Value
  pub breaks : String → Bool
  pub amount_of : Value → Option (Money.Amount money)
  pub sha256 : String → String

-- WorkerHandle, with the two guards that all handles share
pub record WorkerHandle (m : Money) : Type 0 where
  pub recent_lines : List String
  pub last_heartbeat_ts : ℕ
  pub stdout_buf : Bytes
  pub stderr_buf : Bytes
  pub sel_registered : Bool
  pub exit_escalation_started : Option ℕ
  pub killed : Bool
  pub cost_guard : CostGuard m
  pub stuck_detector : StuckDetector
  -- the events file, the latest first
  pub events : List WorkerEvent
  -- what was sent to the process group, the latest first
  pub signals : List Signal

abbrev pub append_event : {m : Money} → WorkerEvent → WorkerHandle m → WorkerHandle m
append_event ev h = record h { events = ev ∷ h.events }

-- WorkerHandle.__init__; `registered` says whether both streams could be registered with the selector
unfoldable pub new : {m : Money} → ℕ → Bool → CostGuard m → StuckDetector → WorkerHandle m
new mono registered cost_guard stuck_detector = record {
  recent_lines = [];
  last_heartbeat_ts = mono;
  stdout_buf = [];
  stderr_buf = [];
  sel_registered = registered;
  exit_escalation_started = none;
  killed = false;
  cost_guard = cost_guard;
  stuck_detector = stuck_detector;
  events = [];
  signals = [];
}

-- bool(value)
abbrev pub is_truthy : Value → Bool
is_truthy null = false
is_truthy (bool b) = b
is_truthy (int (pos zero)) = false
is_truthy (float (ratio (pos zero) n)) = false
is_truthy (str s) = not (is_empty s)
is_truthy (list nil) = false
is_truthy (dict end) = false
is_truthy _ = true

abbrev pub lift_count : Call IntError ℤ → Call RunnerError ℤ
lift_count (returns n) = returns n
lift_count (raises e) = raises (bad_count e)

abbrev pub lift_usage : {A : Type 0} → Call CostError A → Call RunnerError A
lift_usage (returns g) = returns g
lift_usage (raises e) = raises (refused_usage e)

-- int(usage.get(key, 0))
unfoldable pub token_count : String → Value → Call RunnerError ℤ
token_count key (dict fs) = lift_count (to_int (get_or (int (pos 0)) (get key fs)))
token_count key _ = raises no_mapping

abbrev is_text : String → Value → Bool
is_text s (str t) = t == s
is_text s _ = false

-- parsed.get("type", "") == "result"
abbrev pub is_result : Fields → Bool
is_result parsed = is_text "result" (get_or (str "") (get "type" parsed))

abbrev pub total_cost : Fields → Value
total_cost parsed = get_or (float (ratio (pos 0) 0)) (get "total_cost_usd" parsed)

abbrev pub usage_of : Fields → Value
usage_of parsed = get_or (dict end) (get "usage" parsed)

module _ (w : World) where
  open w use {money, worker_id, loads, breaks, amount_of}

  pub record Handled : Type 0 where
    pub event : WorkerEvent
    pub handle : WorkerHandle money

  abbrev pub emit : WorkerEvent → WorkerHandle money → Handled
  emit ev h = record { event = ev; handle = append_event ev h }

  -- the call of `add_usage` with a cost that is a number, one that is none, or no cost
  abbrev pub charge_with :
      CostGuard money
      → ℕ
      → ℤ
      → ℤ
      → Bool
      → Option (Money.Amount money)
      → Call RunnerError (CostGuard money)
  charge_with g now tokens_in tokens_out false cost =
      lift_usage (add_usage money g now worker_id tokens_in tokens_out none)
  charge_with g now tokens_in tokens_out true (some usd) =
      lift_usage (add_usage money g now worker_id tokens_in tokens_out (some usd))
  charge_with g now tokens_in tokens_out true none =
      lift_usage (add_usage money g now worker_id tokens_in tokens_out none) >>= λ _.
      raises bad_cost

  unfoldable pub handle_result : ℕ → Fields → WorkerHandle money → Call RunnerError Handled
  handle_result now parsed h = do
    let cost = total_cost parsed
    tokens_in ← token_count "input_tokens" (usage_of parsed)
    tokens_out ← token_count "output_tokens" (usage_of parsed)
    g ← charge_with h.cost_guard now tokens_in tokens_out (is_truthy cost) (amount_of cost)
    returns (
        emit (result parsed)
          (append_event (usage tokens_in tokens_out cost) (record h { cost_guard = g })))

  unfoldable pub handle_parsed :
      ℕ → String → Option Value → WorkerHandle money → Call RunnerError Handled
  handle_parsed now line none h = returns (emit (stdout_raw line) h)
  handle_parsed now line (some (dict parsed)) h =
      if is_result parsed then handle_result now parsed h else returns (emit (stdout_json parsed) h)
  handle_parsed now line (some _) h = raises no_mapping

  -- _handle_stdout_line
  unfoldable pub handle_stdout_line : ℕ → String → WorkerHandle money → Call RunnerError Handled
  handle_stdout_line now line h =
      if breaks line
      then raises broken_line
      else handle_parsed now line (loads line)
          (record h { recent_lines = push_line line h.recent_lines })

  -- Runner.spawn once `Popen` has given the process `pid`
  unfoldable pub spawn :
      ℕ → String → ℕ → ℕ → Bool → CostGuard money → StuckDetector → WorkerHandle money
  spawn pid task_id utc mono registered cost_guard stuck_detector =
      append_event (spawned pid task_id)
        (new mono registered cost_guard (register worker_id pid utc stuck_detector))
