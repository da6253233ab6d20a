-- ===== src/Plan/Overflow.antt =====
-- The one exception of `parse_plan_dict` that is no PlanParseError: Python's `int(inf)` raises an
-- OverflowError, and `_validate_task` catches a TypeError and a ValueError only.
use tab_conductor.Prelude.{ℕ, String, ◌≡◌, List, arith}
use tab_conductor.Value.{infinity, float, Fields, field, get}
use tab_conductor.Prelude.Call.{returns, raises}
use tab_conductor.Value.Number.{to_int}
use tab_conductor.Plan.{overflow_error, validate_task, int_or, Task}

module _ (raw : Fields) (idx : ℕ) (seen_ids : List String) where
  -- A task that the parser accepts with its default priority makes it raise OverflowError once its
  -- priority is given as the infinite float (`.inf` in YAML).
  pub infinite_priority-overflow :
      (t : Task)
      → validate_task raw idx seen_ids ≡ returns t
      → validate_task (field "priority" (float infinity) raw) idx seen_ids ≡ raises overflow_error
  unfolding validate_task get int_or to_int
  infinite_priority-overflow t h = ground arith
