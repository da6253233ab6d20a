-- ===== src/Orchestrator/Schema.antt =====
-- skill/references/schemas/state.schema.json, on what the type of a document leaves open. `type`,
-- `required` and `additionalProperties` hold of every document of that type, and a time or an error is
-- always a text. The newline that a run id's pattern allows after it is left out, as `ulid.new` gives none.
use tab_conductor.Prelude.{Bool, true, false, ◌&&◌, ◌||◌, Option, none, some, all, ◌==◌}
use tab_conductor.Prelude.Int.{ℤ, pos, leb_ℤ}
use tab_conductor.Value.{Value, null, str}
use tab_conductor.Cost.Usd.{Money}
use tab_conductor.Store.{Document}
use tab_conductor.Orchestrator.State.{TaskStatus, other, LastError, given}
use tab_conductor.Orchestrator.Document.{TaskDict, Body}
use tab_conductor.Ulid.Parse.{is_ulid}

abbrev pub is_task_status : TaskStatus → Bool
is_task_status (other (str s)) = s == "ready" || s == "assigned"
is_task_status (other v) = false
is_task_status _ = true

-- {"type": ["string", "null"]}
abbrev pub is_text_or_null : Value → Bool
is_text_or_null null = true
is_text_or_null (str s) = true
is_text_or_null _ = false

abbrev pub is_error_text : LastError → Bool
is_error_text (given v) = is_text_or_null v
is_error_text _ = true

-- the bounds of #/$defs/task
unfoldable pub fits_numbers : ℤ → ℤ → ℤ → Bool
fits_numbers priority retries max_retries =
    leb_ℤ (pos 0) priority
    && leb_ℤ priority (pos 9)
    && leb_ℤ (pos 0) retries
    && leb_ℤ (pos 0) max_retries
    && leb_ℤ max_retries (pos 10)

-- #/$defs/task
unfoldable pub fits_task : TaskDict → Bool
fits_task t =
    is_task_status t.status
    && fits_numbers t.priority t.retries t.max_retries
    && is_text_or_null t.assigned_to
    && is_error_text t.last_error

abbrev pub is_version : Option ℤ → Bool
is_version none = false
is_version (some n) = leb_ℤ (pos 0) n

module _ (m : Money) where
  unfoldable pub fits_body : Body m → Bool
  fits_body b =
      is_ulid 26 b.run_id
      && Money.le_usd m (Money.zero_usd m) b.cost_usd_total
      && Money.le_usd m (Money.zero_usd m) b.cost_cap_usd_global
      && all fits_task b.tasks

  unfoldable pub fits_schema : Document (Body m) → Bool
  fits_schema d = is_version d.version && fits_body d.body
