-- ===== src/Runner/Returns.antt =====
-- When `poll_once` returns, and when it raises.
use tab_conductor.Prelude.{String, Bool, true, false, not, ◌&&◌, ◌||◌, Option, none, some}
use tab_conductor.Prelude.Int.{ℤ, pos, negsuc}
use tab_conductor.Prelude.Call.{Call, returns, raises}
use tab_conductor.Value.{Value, dict, Fields}
use tab_conductor.Runner.Handle.{
  RunnerError, World, token_count, is_result, usage_of, total_cost, is_truthy,
}

abbrev pub is_returned : {E A : Type 0} → Call E A → Bool
is_returned (returns a) = true
is_returned (raises e) = false

-- a number of tokens that the cost guard takes
abbrev pub is_count : Call RunnerError ℤ → Bool
is_count (returns (pos n)) = true
is_count (returns (negsuc n)) = false
is_count (raises e) = false

abbrev pub is_number : {A : Type 0} → Option A → Bool
is_number none = false
is_number (some a) = true

module _ (w : World) where
  -- the usage and the cost of a result line
  abbrev pub is_chargeable : Fields → Bool
  is_chargeable parsed =
      is_count (token_count "input_tokens" (usage_of parsed))
      && is_count (token_count "output_tokens" (usage_of parsed))
      && (not (is_truthy (total_cost parsed)) || is_number (World.amount_of w (total_cost parsed)))

  abbrev is_fine_value : Option Value → Bool
  is_fine_value none = true
  is_fine_value (some (dict parsed)) = not (is_result parsed) || is_chargeable parsed
  is_fine_value (some _) = false

  -- a line that does not break, and is no JSON, a JSON object that is no result, or a result with usage that can
  -- be charged
  abbrev pub is_fine : String → Bool
  is_fine line = not (World.breaks w line) && is_fine_value (World.loads w line)
