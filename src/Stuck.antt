-- ===== src/Stuck.antt =====
-- src/tab_conductor/stuck_detector.py: the watch over silent workers. Times are whole microseconds of
-- the UTC clock. SHA-256 is a parameter, and what `pgrep` does is an argument of `check`.
mod Repeats
pub mod Checks
mod Tests
use tab_conductor.Prelude.{
  ℕ, zero, ◌+◌, ◌*◌, String, Bool, true, false, not, ◌&&◌, Option, none, some, List, [], ◌∷◌, leb,
  ◌==◌, if◌then◌else◌,
}
use tab_conductor.Prelude.Int.{ℤ, pos, negsuc}
use tab_conductor.Prelude.Call.{Call, returns, raises, ◌>>=◌}
use tab_conductor.Dict.{Dict, lookup, insert}

pub data StuckStatus : Type 0 where
  live warn_heartbeat warn_capture stuck kill_candidate : StuckStatus

-- _WorkerRecord
pub record WorkerRecord : Type 0 where
  pub pid : ℕ
  pub last_heartbeat : ℕ
  pub last_capture_hash : Option String
  pub capture_repeat_count : ℕ
  pub registered_at : ℕ

pub record StuckDetector : Type 0 where
  pub heartbeat_timeout_s : ℕ
  pub capture_repeat_threshold : ℕ
  pub idle_kill_threshold_s : ℕ
  pub workers : Dict WorkerRecord

-- the `KeyError` of `self._workers[worker_id]`
pub data MissingWorker : Type 0 where
  missing_worker : String → MissingWorker

-- how the run of `pgrep` ends
pub data Pgrep : Type 0 where
  ended : ℤ → Pgrep
  not_found timed_out : Pgrep

unfoldable pub pgrep_alive : Pgrep → Bool
pgrep_alive (ended (pos zero)) = true
pgrep_alive (ended _) = false
pgrep_alive not_found = true
pgrep_alive timed_out = true

abbrev pub new : ℕ → ℕ → ℕ → StuckDetector
new heartbeat_timeout_s capture_repeat_threshold idle_kill_threshold_s = record {
  heartbeat_timeout_s = heartbeat_timeout_s;
  capture_repeat_threshold = capture_repeat_threshold;
  idle_kill_threshold_s = idle_kill_threshold_s;
  workers = [];
}

-- self._workers[worker_id]
abbrev pub found : String → Option WorkerRecord → Call MissingWorker WorkerRecord
found worker_id none = raises (missing_worker worker_id)
found worker_id (some rec) = returns rec

-- The records are shared objects: a change to one is a change of its entry.
abbrev pub put : String → WorkerRecord → StuckDetector → StuckDetector
put worker_id rec d = record d { workers = insert worker_id rec d.workers }

unfoldable pub register : String → ℕ → ℕ → StuckDetector → StuckDetector
register worker_id pid now d =
    put worker_id
      (record {
        pid = pid;
        last_heartbeat = now;
        last_capture_hash = none;
        capture_repeat_count = 0;
        registered_at = now;
      })
      d

unfoldable pub update_heartbeat : String → ℕ → StuckDetector → Call MissingWorker StuckDetector
update_heartbeat worker_id ts d = do
  rec ← found worker_id (lookup worker_id d.workers)
  returns (put worker_id (record rec { last_heartbeat = ts }) d)

abbrev pub is_same : Option String → String → Bool
is_same none digest = false
is_same (some last) digest = last == digest

abbrev pub observe : String → WorkerRecord → WorkerRecord
observe digest rec =
    if is_same rec.last_capture_hash digest
    then record rec { capture_repeat_count = rec.capture_repeat_count + 1 }
    else record rec { last_capture_hash = some digest; capture_repeat_count = 1 }

unfoldable pub update_capture :
    (String → String) → String → String → StuckDetector → Call MissingWorker StuckDetector
update_capture sha256 worker_id capture_text d = do
  rec ← found worker_id (lookup worker_id d.workers)
  returns (put worker_id (observe (sha256 capture_text) rec) d)

-- (now - since).total_seconds() >= limit_s
unfoldable pub is_elapsed : ℕ → ℕ → ℕ → Bool
is_elapsed now since limit_s = leb (since + limit_s * 1_000_000) now

unfoldable pub assess : StuckDetector → WorkerRecord → Bool → ℕ → StuckStatus
assess d rec alive now =
    let hb_bad = is_elapsed now rec.last_heartbeat d.heartbeat_timeout_s in
    let cap_bad = leb d.capture_repeat_threshold rec.capture_repeat_count in
    if is_elapsed now rec.last_heartbeat d.idle_kill_threshold_s
    then kill_candidate
    else if hb_bad && cap_bad && not alive
    then stuck
    else if hb_bad
    then warn_heartbeat
    else if cap_bad
    then warn_capture
    else live

unfoldable pub check : (ℕ → Pgrep) → ℕ → String → StuckDetector → Call MissingWorker StuckStatus
check pgrep now worker_id d = do
  rec ← found worker_id (lookup worker_id d.workers)
  returns (assess d rec (pgrep_alive (pgrep rec.pid)) now)
