-- ===== src/Orchestrator/Command.antt =====
-- `_build_worker_cmd`, and the one argument vector that `Popen` refuses with a ValueError.
use Prim.Native.Char.{code}
use tab_conductor.Prelude.{
  String, Bool, false, ◌||◌, Option, none, some, List, [], ◌∷◌, ◌++◌, leb, if◌then◌else◌,
}
use tab_conductor.Prelude.Call.{Call, returns, raises}
use tab_conductor.Value.Text.{is_empty}
use tab_conductor.Orchestrator.State.{Config, TaskRecord, OrchestratorError, no_mock_worker}

abbrev mock_cmd : Option String → TaskRecord → Call OrchestratorError (List String)
mock_cmd none t = raises no_mock_worker
mock_cmd (some mock_path) t = returns (mock_path ∷ t.id ∷ t.prompt ∷ [])

-- `cmd += [flag, value]`, if there is a value that is not empty
abbrev add_flag : String → Option String → List String → List String
add_flag flag none cmd = cmd
add_flag flag (some value) cmd = if is_empty value then cmd else cmd ++ flag ∷ value ∷ []

abbrev claude_cmd : Config → TaskRecord → String → List String
claude_cmd config t worker_id = add_flag "--allowedTools" config.allow_tools_default (
    add_flag "--disallowedTools" config.deny_tools_default (
      "claude" ∷ "-p" ∷ t.prompt ∷ "--output-format" ∷ "stream-json" ∷ "--verbose"
      ∷ "--include-partial-messages" ∷ "--max-budget-usd" ∷ config.cap_text ∷ "--session-id"
      ∷ worker_id ∷ []))

-- without mock mode
abbrev template_cmd : List String → Config → TaskRecord → String → List String
template_cmd [] config t worker_id = claude_cmd config t worker_id
template_cmd (c ∷ cs) config t worker_id = c ∷ cs

unfoldable pub build_worker_cmd :
    Config → TaskRecord → String → Call OrchestratorError (List String)
build_worker_cmd config t worker_id =
    if config.mock_mode
    then mock_cmd config.mock_worker_path t
    else returns (template_cmd config.worker_command_template config t worker_id)

unfoldable pub has_nul : String → Bool
has_nul String.[] = false
has_nul (String.◌∷◌ c s) = leb (code c) 0 || has_nul s

-- "embedded null byte"
unfoldable pub any_nul : List String → Bool
any_nul [] = false
any_nul (arg ∷ args) = has_nul arg || any_nul args
