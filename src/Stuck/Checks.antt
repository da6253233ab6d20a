-- ===== src/Stuck/Checks.antt =====
-- How the verdict of `check` depends on the time, the heartbeats and the samples.
use tab_conductor.Prelude.{
  ℕ, ◌+◌, ◌*◌, ◌≤◌, ◌<◌, String, ◌≡◌, refl, Bool, some, Bool-cases, subst, List, [], leb, eq_refl,
  arith, Option-cases, inl, inr, ◌⊎◌,
}
use tab_conductor.Prelude.Call.{returns}
use tab_conductor.Dict.{lookup, lookup-insert}
use tab_conductor.Stuck.{
  StuckDetector, WorkerRecord, StuckStatus, live, warn_heartbeat, warn_capture, stuck,
  kill_candidate, Pgrep, pgrep_alive, update_heartbeat, is_elapsed, assess, check, new,
}
use tab_conductor.Stuck.Repeats.{
  Event, happen_all, samples, run_length, happen_all-Tracks, happen_all-threshold,
}

-- The order of the statuses: a silent heartbeat weighs more than repeated captures.
abbrev pub severity : StuckStatus → ℕ
severity live = 0
severity warn_capture = 1
severity warn_heartbeat = 2
severity stuck = 3
severity kill_candidate = 4

assess-severity :
    (d : StuckDetector) (rec : WorkerRecord) (alive : Bool) (now later : ℕ)
    → now ≤ later
    → severity (assess d rec alive now) ≤ severity (assess d rec alive later)
unfolding assess is_elapsed
assess-severity d rec alive now later h = ground arith

-- If two checks of a worker return at a time and at a later one with the same answers of pgrep and
-- nothing in between, then the later status is at least as severe.
pub check-severity :
    (pgrep : ℕ → Pgrep) (d : StuckDetector) (w : String) (now later : ℕ) (s t : StuckStatus)
    → now ≤ later
    → check pgrep now w d ≡ returns s
    → check pgrep later w d ≡ returns t
    → severity s ≤ severity t
unfolding check
check-severity pgrep d w now later s t h hs ht = elim (Option-cases (lookup w d.workers)) [
  | inl missing ↦ cc (missing, hs)
  | inr (rec, known) ↦
      let alive = pgrep_alive (pgrep rec.pid) in
      subst (λ x. severity x ≤ severity t) {x = assess d rec alive now} {y = s} (cc (known, hs))
        (subst (λ x. severity (assess d rec alive now) ≤ severity x) {x = assess d rec alive later}
          {y = t} (cc (known, ht)) (assess-severity d rec alive now later h))
]

assess-heartbeat :
    (pgrep : ℕ → Pgrep) (d : StuckDetector) (w : String) (rec : WorkerRecord) (now : ℕ)
    → lookup w d.workers ≡ some rec
    → now < rec.last_heartbeat + d.heartbeat_timeout_s * 1_000_000
    → now < rec.last_heartbeat + d.idle_kill_threshold_s * 1_000_000
    → (check pgrep now w d ≡ returns live) ⊎ (check pgrep now w d ≡ returns warn_capture)
unfolding check assess is_elapsed
assess-heartbeat pgrep d w rec now known soon early =
    elim (Bool-cases (leb d.capture_repeat_threshold rec.capture_repeat_count)) [
      | inl repeated ↦ inr (rw known (ground (arith, soon, early, repeated)))
      | inr varied ↦ inl (rw known (ground (arith, soon, early, varied)))
    ]

-- If a heartbeat is recorded, a check at a time before either of the two time limits after it returns,
-- with a status that is `live` or the warning about captures.
pub update_heartbeat-check :
    (pgrep : ℕ → Pgrep) (d d' : StuckDetector) (w : String) (ts now : ℕ)
    → update_heartbeat w ts d ≡ returns d'
    → now < ts + d.heartbeat_timeout_s * 1_000_000
    → now < ts + d.idle_kill_threshold_s * 1_000_000
    → (check pgrep now w d' ≡ returns live) ⊎ (check pgrep now w d' ≡ returns warn_capture)
unfolding update_heartbeat check assess is_elapsed
update_heartbeat-check pgrep d d' w ts now h soon early = elim (Option-cases (lookup w d.workers)) [
  | inl missing ↦ cc (missing, h)
  | inr (rec, known) ↦
      let rec' = record rec { last_heartbeat = ts } in
      let at_w = lookup-insert w w rec' d.workers in
      assess-heartbeat pgrep d' w rec' now (ground (arith, known, h, eq_refl w, at_w))
        (ground (arith, known, h, soon)) (ground (arith, known, h, early))
]

assess-repeats :
    (d : StuckDetector) (rec : WorkerRecord) (alive : Bool) (now : ℕ)
    → d.capture_repeat_threshold ≤ rec.capture_repeat_count
    → 1 ≤ severity (assess d rec alive now)
unfolding assess
assess-repeats d rec alive now h = ground arith

-- If a new detector has taken any registrations, heartbeats and captures without a missing worker, and
-- the last samples of a worker that it knows, at least as many as the threshold, have equal digests,
-- then a check of it returns a status that is not `live`.
pub check-repeats :
    (sha256 : String → String) (pgrep : ℕ → Pgrep) (heartbeat repeats idle : ℕ) (es : List Event)
    (d : StuckDetector) (w : String) (rec : WorkerRecord) (now : ℕ)
    → happen_all sha256 es (new heartbeat repeats idle) ≡ returns d
    → lookup w d.workers ≡ some rec
    → repeats ≤ run_length (samples sha256 w es [])
    → (s : StuckStatus) × (check pgrep now w d ≡ returns s) × (1 ≤ severity s)
unfolding check
check-repeats sha256 pgrep heartbeat repeats idle es d w rec now h known n =
    let t = happen_all-Tracks sha256 heartbeat repeats idle es d w rec h known in
    let limit = happen_all-threshold sha256 es (new heartbeat repeats idle) d h in
    let alive = pgrep_alive (pgrep rec.pid) in
    (
      assess d rec alive now,
      rw known refl,
      assess-repeats d rec alive now (omega (arith, t.count, limit, n)),
    )
