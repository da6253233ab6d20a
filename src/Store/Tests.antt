-- ===== src/Store/Tests.antt =====
-- Runs of the store with a number as the rest of a document, and instances of its theorems.
use tab_conductor.Prelude.{
  ℕ, ◌+◌, ◌*◌, ◌/◌, ◌≡◌, refl, Bool, true, Option, none, some, [], ◌∷◌, arith, ltb, if◌then◌else◌,
}
use tab_conductor.Prelude.Int.{pos}
use tab_conductor.Prelude.Call.{Call, returns, raises}
use tab_conductor.Store.{
  Document, File, document, StoreError, already_exists, version_mismatch, Luck, synced, not_synced,
  as_is, prepare, read_raw, atomic_write, init, read, update,
}
use tab_conductor.Store.Lock.{
  Attempts, acquired, blocked, poll_lock, flock_with_timeout, IsPaced, Ends,
  flock_with_timeout-Ends,
}
use tab_conductor.Store.Serial.{Atomic, update-Atomic}
use tab_conductor.Store.Concurrent.{
  System, waiting, holding, loaded, prepared, enter, release, Steps, here, next, acquires, loads,
  mutates, replaces, releases, run_all, IsNotLost, Steps-IsNotLost,
}

abbrev any : Document ℕ → Bool
any d = true

abbrev doc : ℕ → ℕ → Document ℕ
doc version body = record { version = some (pos version); body = body }

abbrev add_ten : Document ℕ → Call StoreError (Document ℕ)
add_ten d = returns (record d { body = d.body + 10 })

abbrev bump : Document ℕ → Call StoreError (Document ℕ)
bump d = returns (record d { version = some (pos 9) })

abbrev fine : Luck
fine = record { locks = true; writes = synced }

runs : Unit {0}
unfolding prepare read_raw atomic_write init read update run_all
runs = tt

abbrev stored : Option (File ℕ)
stored = some (document (doc 3 1))

update-stored : (update any as_is fine add_ten stored).result ≡ returns (doc 4 11)
unfolding runs
update-stored = refl

update-bump : (update any as_is fine bump stored).result ≡ raises (version_mismatch (pos 3) (pos 9))
unfolding runs
update-bump = refl

init-stored : (init any as_is fine (doc 0 0) stored).result ≡ raises already_exists
unfolding runs
init-stored = refl

-- JSON that rounds a number down to tens, as it makes a list of a tuple
abbrev coarse : ℕ → ℕ
coarse n = n / 10 * 10

abbrev unsynced : Luck
unsynced = record { locks = true; writes = not_synced }

update-unsynced : (update any coarse unsynced add_ten stored).file ≡ some (document (doc 4 10))
unfolding runs
update-unsynced = refl

update-Atomic_example :
    Atomic any coarse stored not_synced (update any coarse unsynced add_ten stored)
update-Atomic_example = update-Atomic any coarse unsynced add_ten stored

-- a process "a" that fails after its load, then "b" that writes
abbrev quiet : System ℕ
quiet = record { file = stored; owner = none; phases = λ q. waiting; log = [] }

abbrev failed : System ℕ
failed =
    release "a"
      (enter "a" (loaded (doc 3 1)) (record (enter "a" holding quiet) { owner = some "a" }))

abbrev made : System ℕ
made =
    enter "b" (prepared add_ten (doc 4 11))
      (enter "b" (loaded (doc 3 1)) (record (enter "b" holding failed) { owner = some "b" }))

abbrev written : System ℕ
written = record (enter "b" holding made) { file = some (document (doc 4 11)); log = add_ten ∷ [] }

quiet-failed : Steps any as_is quiet failed
quiet-failed =
    next (next (next here (acquires "a" refl)) (loads "a" (doc 3 1) refl refl)) (releases "a" refl)

quiet-written : Steps any as_is quiet written
unfolding runs
quiet-written =
    next
      (next (next (next quiet-failed (acquires "b" refl)) (loads "b" (doc 3 1) refl refl))
        (mutates "b" add_ten (doc 3 1) (doc 4 11) refl refl))
      (replaces "b" add_ten (doc 4 11) refl)

Steps-IsNotLost_example : IsNotLost any as_is 3 (doc 3 1) written
Steps-IsNotLost_example =
    Steps-IsNotLost any as_is 3 (doc 3 1) quiet written refl
      (record { file = refl; free = refl; idle = λ q. refl; fresh = refl }) quiet-written

-- the lock is held for three calls, 60 milliseconds apart
abbrev third_time : Attempts
third_time = record {
  attempt = λ i. if ltb i 3 then blocked else acquired;
  clock = λ i. 7 + i * 60_000_000;
}

third_time-IsPaced : IsPaced third_time 7
third_time-IsPaced = record { starts = omega arith; sleeps = λ i. omega arith }

third_time-acquired : flock_with_timeout third_time 7 4 ≡ some (returns tt)
unfolding flock_with_timeout poll_lock
third_time-acquired = refl

flock_with_timeout-Ends_example : Ends third_time 7 (flock_with_timeout third_time 7 101)
flock_with_timeout-Ends_example = flock_with_timeout-Ends third_time 7 third_time-IsPaced
