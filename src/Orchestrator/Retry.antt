-- ===== src/Orchestrator/Retry.antt =====
-- `_maybe_retry_task`.
use tab_conductor.Prelude.{ℕ, zero, suc, ◌+◌, ◌*◌, ◌/◌, ◌^◌, Bool, if◌then◌else◌}
use Prim.Native.Nat.{min}
use tab_conductor.Prelude.Int.{ℤ, pos, negsuc, pos_part, neg_part}
use tab_conductor.Prelude.{ltb}
use tab_conductor.Value.{null}
use tab_conductor.Orchestrator.State.{TaskRecord, Config, Orchestrator, TaskStatus, set_task}

abbrev pub ltb_ℤ : ℤ → ℤ → Bool
ltb_ℤ a b = ltb (pos_part a + neg_part b) (pos_part b + neg_part a)

-- n + 1
abbrev pub suc_ℤ : ℤ → ℤ
suc_ℤ (pos n) = pos (n + 1)
suc_ℤ (negsuc zero) = pos 0
suc_ℤ (negsuc (suc n)) = negsuc n

-- backoff_base_s * backoff_factor ** k, rounded down to a nanosecond
unfoldable pub scaled : Config → ℤ → ℕ
scaled c (pos k) = c.backoff_base * c.backoff_numerator ^ k / c.backoff_denominator ^ k
scaled c (negsuc k) =
    c.backoff_base * c.backoff_denominator ^ (k + 1) / c.backoff_numerator ^ (k + 1)

-- the exponent `task.retries - 1` after the increment is the count before it
unfoldable pub backoff : Config → ℤ → ℕ
unfolding scaled
backoff c retries = min (scaled c retries) c.poll_max

unfoldable pub maybe_retry_task : ℕ → TaskRecord → Orchestrator → Orchestrator
maybe_retry_task clock t o =
    if ltb_ℤ t.retries t.max_retries
    then set_task
        (record t {
          retries = suc_ℤ t.retries;
          status = TaskStatus.pending;
          assigned_to = null;
          retry_at = clock + backoff o.config t.retries;
        })
        o
    else record (set_task (record t { status = TaskStatus.terminal }) o) { exit_code = 1 }
