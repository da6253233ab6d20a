-- ===== src/Runner/Poll.antt =====
-- `poll_once`. Of the readings of the clocks, one stands for all usage that a poll charges.
use tab_conductor.Prelude.{
  ℕ, ◌+◌, ◌*◌, String, Option, none, some, List, [], ◌∷◌, ◌++◌, leb, if◌then◌else◌,
}
use tab_conductor.Prelude.Call.{Call, returns, raises, ◌>>=◌}
use Prim.Native.String
use tab_conductor.Value.Text.{rstrip, is_empty}
use tab_conductor.Cost.{second}
use tab_conductor.Stuck.{StuckDetector, MissingWorker, update_heartbeat, update_capture}
use tab_conductor.Runner.Lines.{Bytes, split_lines, last_lines, capture_window}
use tab_conductor.Runner.Handle.{
  WorkerEvent, heartbeat, RunnerError, World, WorkerHandle, append_event, Handled,
  handle_stdout_line,
}
use tab_conductor.Runner.Signals.{Sight, maybe_escalate}

-- _HEARTBEAT_INTERVAL_S
abbrev pub heartbeat_interval : ℕ
heartbeat_interval = 5 * second

pub data Stream : Type 0 where
  stdout stderr : Stream

-- What a poll meets: the clocks, what `select` gives, with `none` for its OSError, as the bytes read from
-- each stream that is ready, and what the checks see.
pub record Moment : Type 0 where
  pub mono : ℕ
  pub utc : ℕ
  pub ready : Option (List (Stream × Bytes))
  pub charged : ℕ
  pub first_sight : Sight
  pub second_sight : Sight
  pub begin : ℕ
  pub now : ℕ

-- the detector after a call whose KeyError is suppressed
abbrev pub suppress : Call MissingWorker StuckDetector → StuckDetector → StuckDetector
suppress (returns d) old = d
suppress (raises e) old = old

-- "\n".join(lines)
unfoldable pub join_lines : List String → String
join_lines [] = ""
join_lines (l ∷ []) = l
join_lines (l ∷ k ∷ ls) = let rest = join_lines (k ∷ ls) in String.◌++◌ l (String.◌++◌ "\n" rest)

module _ (w : World) where
  open w use {money, worker_id, decode, sha256}

  -- a poll's `event`, and the handle
  pub record Polled : Type 0 where
    pub event : Option WorkerEvent
    pub handle : WorkerHandle money

  abbrev pub of_handled : Handled w → Polled
  of_handled r = record { event = some r.event; handle = r.handle }

  -- line_bytes.decode("utf-8", errors="replace").rstrip()
  abbrev pub line_of : Bytes → String
  line_of line_bytes = rstrip (decode line_bytes)

  unfoldable pub take_line : ℕ → String → Polled → Call RunnerError Polled
  take_line now line p =
      if is_empty line
      then returns p
      else (handle_stdout_line w now line p.handle >>= λ r. returns (of_handled r))

  unfoldable pub take_lines : ℕ → List Bytes → Polled → Call RunnerError Polled
  take_lines now [] p = returns p
  take_lines now (l ∷ ls) p = take_line now (line_of l) p >>= take_lines now ls

  unfoldable pub read_stdout : ℕ → Bytes → Polled → Call RunnerError Polled
  read_stdout now [] p = returns p
  read_stdout now (b ∷ chunk) p =
      let s = split_lines (p.handle.stdout_buf ++ b ∷ chunk) in
      take_lines now s.lines (record p { handle = record p.handle { stdout_buf = s.rest } })

  unfoldable pub take_error_line : String → Polled → Polled
  take_error_line line p = if is_empty line then p else record {
    event = some (WorkerEvent.stderr line);
    handle = append_event (WorkerEvent.stderr line) p.handle;
  }

  unfoldable pub take_error_lines : List Bytes → Polled → Polled
  take_error_lines [] p = p
  take_error_lines (l ∷ ls) p = take_error_lines ls (take_error_line (line_of l) p)

  unfoldable pub read_stderr : Bytes → Polled → Polled
  read_stderr [] p = p
  read_stderr (b ∷ chunk) p =
      let s = split_lines (p.handle.stderr_buf ++ b ∷ chunk) in
      take_error_lines s.lines (record p { handle = record p.handle { stderr_buf = s.rest } })

  abbrev pub read_stream : ℕ → Stream → Bytes → Polled → Call RunnerError Polled
  read_stream now stdout chunk p = read_stdout now chunk p
  read_stream now stderr chunk p = returns (read_stderr chunk p)

  unfoldable pub read_each : ℕ → List (Stream × Bytes) → Polled → Call RunnerError Polled
  read_each now [] p = returns p
  read_each now ((stream, chunk) ∷ ready) p = read_stream now stream chunk p >>= read_each now ready

  -- the sample of the recent lines for the stuck detector
  unfoldable pub update_sample : WorkerHandle money → WorkerHandle money
  update_sample h = record h { stuck_detector = sample h.recent_lines h.stuck_detector }
    where
      sample : List String → StuckDetector → StuckDetector
      sample [] d = d
      sample (l ∷ ls) d =
          suppress
            (update_capture sha256 worker_id (join_lines (last_lines capture_window (l ∷ ls))) d) d

  unfoldable pub beat : Moment → WorkerHandle money → WorkerHandle money
  beat t h = append_event heartbeat (record h {
    last_heartbeat_ts = t.mono;
    stuck_detector = suppress (update_heartbeat worker_id t.utc h.stuck_detector) h.stuck_detector;
  })

  unfoldable pub after_reading : Moment → Polled → Polled
  after_reading t p = record p {
    handle = maybe_escalate w t.first_sight t.second_sight t.begin t.now (update_sample p.handle);
  }

  abbrev pub poll_ready :
      Moment → Option (List (Stream × Bytes)) → WorkerHandle money → Call RunnerError Polled
  poll_ready t none h = returns (record { event = none; handle = h })
  poll_ready t (some ready) h =
      read_each t.charged ready (record { event = none; handle = h }) >>= λ p.
      returns (after_reading t p)

  unfoldable pub poll_once : Moment → WorkerHandle money → Call RunnerError Polled
  poll_once t h =
      if leb (h.last_heartbeat_ts + heartbeat_interval) t.mono
      then returns (record { event = some heartbeat; handle = beat t h })
      else if h.sel_registered
      then poll_ready t t.ready h
      else returns (record { event = none; handle = h })
