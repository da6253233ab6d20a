-- ===== src/Store/Lock.antt =====
-- state.py `_flock_with_timeout`: the lock is polled until it is free or the time is up. Times are whole
-- nanoseconds of the monotonic clock.
use tab_conductor.Prelude.{
  ℕ, zero, suc, ◌+◌, ◌*◌, ◌≤◌, ◌<◌, ◌≡◌, refl, Bool, true, false, ◌⊎◌, Option, none, some, arith,
  leb, ltb, ltb→le, leb→le, leb→lt, Bool-cases, inl, inr, ap, subst,
}
use tab_conductor.Prelude.Call.{Call, returns, raises}
use tab_conductor.Store.{StoreError, lock_timeout, os_error}

-- _FLOCK_TIMEOUT_S
abbrev pub flock_timeout : ℕ
flock_timeout = 5_000_000_000

-- _FLOCK_POLL_INTERVAL_S
abbrev pub flock_poll_interval : ℕ
flock_poll_interval = 50_000_000

-- how a call of `_flock` ends: it returns, or raises BlockingIOError or another OSError
pub data Attempt : Type 0 where
  acquired blocked failed : Attempt

-- what the loop meets: the result of each call, and the clock after it
pub record Attempts : Type 0 where
  pub attempt : ℕ → Attempt
  pub clock : ℕ → ℕ

abbrev answer :
    Bool → Attempt → Option (Call StoreError (Unit {0})) → Option (Call StoreError (Unit {0}))
answer late acquired rest = some (returns tt)
answer late failed rest = some (raises os_error)
answer true blocked rest = some (raises lock_timeout)
answer false blocked rest = rest

-- the loop from its call `i` on, of which at most `fuel` are made
unfoldable pub poll_lock : Attempts → ℕ → ℕ → ℕ → Option (Call StoreError (Unit {0}))
poll_lock a deadline zero i = none
poll_lock a deadline (suc fuel) i =
    let rest = poll_lock a deadline fuel (i + 1) in
    answer (leb deadline (a.clock i)) (a.attempt i) rest

unfoldable pub flock_with_timeout : Attempts → ℕ → ℕ → Option (Call StoreError (Unit {0}))
flock_with_timeout a start fuel = poll_lock a (start + flock_timeout) fuel 0

-- The clock starts at `start` or later, and a sleep takes its time.
pub record IsPaced (a : Attempts) (start : ℕ) : Type 0 where
  pub starts : start ≤ a.clock 0
  pub sleeps : (i : ℕ) → a.clock i + flock_poll_interval ≤ a.clock (i + 1)

-- The loop ends at the call `i`, with the lock if and only if that call got it; if the time is up, no call got it.
pub record IsEnd (a : Attempts) (deadline i : ℕ) (r : Call StoreError (Unit {0})) : Type 0 where
  pub waited : (j : ℕ) → j < i → (a.attempt j ≡ blocked) × (a.clock j < deadline)
  pub last :
      ((a.attempt i ≡ acquired) × (r ≡ returns tt))
      ⊎ (((a.attempt i ≡ failed) × (r ≡ raises os_error))
          ⊎ ((a.attempt i ≡ blocked) × (deadline ≤ a.clock i) × (r ≡ raises lock_timeout)))

Attempt-cases : (t : Attempt) → (t ≡ acquired) ⊎ ((t ≡ failed) ⊎ (t ≡ blocked))
Attempt-cases acquired = inl refl
Attempt-cases failed = inr (inl refl)
Attempt-cases blocked = inr (inr refl)

-- The call `k`, at most the hundred and first, ends the loop.
abbrev pub Ends : Attempts → ℕ → Option (Call StoreError (Unit {0})) → Type 0
Ends a start o =
    (k : ℕ) × (k ≤ 100)
    × (r : Call StoreError (Unit {0})) × (o ≡ some r)
    × IsEnd a (start + flock_timeout) k r

module _ (a : Attempts) (start : ℕ) (p : IsPaced a start) where
  clock-paced : (i : ℕ) → start + i * flock_poll_interval ≤ a.clock i
  clock-paced zero = omega (arith, p.starts)
  clock-paced (suc i) =
      let same : a.clock (i + 1) ≡ a.clock (suc i) =
        ap a.clock {x = i + 1} {y = suc i} (omega arith) in
      omega (arith, clock-paced i, p.sleeps i, same)

  -- the calls before `i` were blocked, and early
  abbrev Waited : ℕ → Type 0
  Waited i = (j : ℕ) → j < i → (a.attempt j ≡ blocked) × (a.clock j < start + flock_timeout)

  Waited-suc :
      (i : ℕ)
      → Waited i
      → a.attempt i ≡ blocked
      → a.clock i < start + flock_timeout
      → Waited (i + 1)
  Waited-suc i before wait early j le = elim (Bool-cases (ltb j i)) [
    | inl earlier ↦ before j (ground (arith, earlier))
    | inr here ↦
        let same : i ≡ j = omega (arith, le, ltb→le j i here) in
        subst (λ j. (a.attempt j ≡ blocked) × (a.clock j < start + flock_timeout)) same
          (wait, early)
  ]

  poll_lock-Ends :
      (fuel i : ℕ)
      → 100 < i + fuel
      → i ≤ 100
      → Waited i
      → Ends a start (poll_lock a (start + flock_timeout) fuel i)
  unfolding poll_lock
  poll_lock-Ends zero i enough le before = absurd (omega (arith, enough, le))
  poll_lock-Ends (suc fuel) i enough le before = elim (Attempt-cases (a.attempt i)) [
    | inl got ↦ (i, le, returns tt, rw got refl, record { waited = before; last = inl (got, refl) })
    | inr (inl bad) ↦ (
      i,
      le,
      raises os_error,
      rw bad refl,
      record { waited = before; last = inr (inl (bad, refl)) },
    )
    | inr (inr wait) ↦ elim (Bool-cases (leb (start + flock_timeout) (a.clock i))) [
      | inl late ↦ (
        i,
        le,
        raises lock_timeout,
        rw (wait, late) refl,
        record {
          waited = before;
          last = inr (inr (wait, leb→le (start + flock_timeout) (a.clock i) late, refl));
        },
      )
      | inr early ↦
          let soon : a.clock i < start + flock_timeout =
            leb→lt (start + flock_timeout) (a.clock i) early in
          subst (Ends a start) (rw (wait, early) refl) (
            poll_lock-Ends fuel (i + 1) (omega (arith, enough)) (omega (arith, clock-paced i, soon))
              (Waited-suc i before wait soon))
    ]
  ]

  -- If the clock does not go back and a sleep takes its time, 101 calls are enough: the loop ends at one of
  -- them, all calls before which were blocked in time. It returns if that call got the lock, raises an OSError if
  -- the call failed, and raises StateLockTimeout if the call was blocked with the time up.
  pub flock_with_timeout-Ends : Ends a start (flock_with_timeout a start 101)
  unfolding flock_with_timeout
  flock_with_timeout-Ends =
      poll_lock-Ends 101 0 (omega arith) (omega arith) (λ j le. absurd (omega (arith, le)))
