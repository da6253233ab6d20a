-- ===== src/Stuck/Tests.antt =====
-- Runs of the detector with the text itself as its digest, and instances of the theorems about it.
use tab_conductor.Prelude.{ℕ, ◌≤◌, ◌≡◌, refl, some, List, [], ◌∷◌, arith, ◌⊎◌}
use tab_conductor.Prelude.Int.{pos}
use tab_conductor.Prelude.Call.{returns}
use tab_conductor.Dict.{lookup, insert}
use tab_conductor.Stuck.{
  StuckDetector, WorkerRecord, StuckStatus, live, warn_capture, stuck, Pgrep, ended, pgrep_alive,
  new, register, update_heartbeat, update_capture, is_elapsed, assess, check,
}
use tab_conductor.Stuck.Repeats.{
  Event, registers, beats, captures, happen, happen_all, samples, run_length, Tracks,
  happen_all-Tracks,
}
use tab_conductor.Stuck.Checks.{severity, check-severity, update_heartbeat-check, check-repeats}

abbrev events : List Event
events =
    registers "w1" 40 0
    ∷ captures "w1" "a"
    ∷ captures "w1" "b"
    ∷ beats "w1" 5_000_000
    ∷ captures "w1" "b"
    ∷ captures "w1" "b"
    ∷ []

abbrev repeated : WorkerRecord
repeated = record {
  pid = 40;
  last_heartbeat = 5_000_000;
  last_capture_hash = some "b";
  capture_repeat_count = 3;
  registered_at = 0;
}

abbrev watched : StuckDetector
watched = record (new 60 3 600) { workers = ("w1", repeated) ∷ [] }

-- pgrep finds no child
abbrev childless : ℕ → Pgrep
childless pid = ended (pos 1)

runs : Unit {0}
unfolding lookup insert pgrep_alive register update_heartbeat update_capture is_elapsed assess check
    happen happen_all samples run_length
runs = tt

events-watched : happen_all (λ t. t) events (new 60 3 600) ≡ returns watched
unfolding runs
events-watched = refl

check-early : check childless 64_999_999 "w1" watched ≡ returns warn_capture
unfolding runs
check-early = refl

check-late : check childless 65_000_000 "w1" watched ≡ returns stuck
unfolding runs
check-late = refl

happen_all-Tracks_example : Tracks ("b" ∷ "b" ∷ "b" ∷ "a" ∷ []) repeated
unfolding runs
happen_all-Tracks_example =
    happen_all-Tracks (λ t. t) 60 3 600 events watched "w1" repeated events-watched refl

check-severity_example : severity warn_capture ≤ severity stuck
check-severity_example =
    check-severity childless watched "w1" 64_999_999 65_000_000 warn_capture stuck (ground arith)
      check-early check-late

update_heartbeat-check_example :
    (check childless 64_999_999 "w1" watched ≡ returns live)
    ⊎ (check childless 64_999_999 "w1" watched ≡ returns warn_capture)
unfolding runs
update_heartbeat-check_example =
    update_heartbeat-check childless watched watched "w1" 5_000_000 64_999_999 refl (ground arith)
      (ground arith)

check-repeats_example :
    (s : StuckStatus) × (check childless 7 "w1" watched ≡ returns s) × (1 ≤ severity s)
unfolding runs
check-repeats_example =
    check-repeats (λ t. t) childless 60 3 600 events watched "w1" repeated 7 events-watched refl
      (ground arith)
