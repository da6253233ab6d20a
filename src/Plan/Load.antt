-- ===== src/Plan/Load.antt =====
-- plan_parser.py `parse_plan`: the plan file, before `parse_plan_dict` takes over. What the file system gives
-- is an argument; yaml.safe_load and Python's recursion limit are parameters.
use tab_conductor.Prelude.{
  ℕ, ◌+◌, ◌*◌, String, Bool, true, false, Option, none, some, ltb, if◌then◌else◌,
}
use tab_conductor.Prelude.Call.{Call, returns, raises}
use tab_conductor.Value.{Value, dict}
use tab_conductor.Plan.{Error, dependency_cycle, overflow_error, ParsedPlan, parse_plan_dict}

-- _MAX_FILE_SIZE
abbrev pub max_file_size : ℕ
max_file_size = 1 * 1024 * 1024

-- path.stat().st_size: FileNotFoundError, another OSError, or the size
pub data Stat : Type 0 where
  missing no_stat : Stat
  size : ℕ → Stat

-- path.read_text(encoding="utf-8"): an OSError, a UnicodeDecodeError, or the text
pub data Reading : Type 0 where
  unreadable undecodable : Reading
  text : String → Reading

-- yaml.safe_load: a value, a YAMLError with the line of its mark, if it has one, a ValueError (of a timestamp
-- that is no date), or a RecursionError (of deep nesting)
pub data Loaded : Type 0 where
  loaded : Value → Loaded
  yaml_error : Option ℕ → Loaded
  value_error recursion_error : Loaded

-- the library and the interpreter: yaml.safe_load, and the plans whose chains of dependencies are longer
-- than Python's recursion limit lets `dfs` go
pub record Python : Type 0 where
  pub safe_load : String → Loaded
  pub exceeds : Value → Bool

pub record PlanFile : Type 0 where
  pub stat : Stat
  pub reading : Reading

-- What `parse_plan` raises. All are PlanParseError but the first four: FileNotFoundError, and the
-- UnicodeDecodeError, ValueError and RecursionError that no handler catches.
pub data LoadError : Type 0 where
  file_not_found unicode_error load_value_error too_deep : LoadError
  bad_file top_not_mapping : LoadError
  too_large : ℕ → LoadError
  bad_yaml : Option ℕ → LoadError
  plan_error : Error → LoadError

abbrev next_line : Option ℕ → Option ℕ
next_line none = none
next_line (some line) = some (line + 1)

-- what `parse_plan_dict` ends in, be it with the recursion limit exceeded; only its last check, the one for
-- cycles, goes deep
abbrev pub lift_error : Bool → Call Error ParsedPlan → Call LoadError ParsedPlan
lift_error exceeded (returns p) = if exceeded then raises too_deep else returns p
lift_error exceeded (raises (dependency_cycle path dep)) =
    if exceeded then raises too_deep else raises (plan_error (dependency_cycle path dep))
lift_error exceeded (raises e) = raises (plan_error e)

module _ (python : Python) where
  abbrev pub parse_loaded : Loaded → Call LoadError ParsedPlan
  parse_loaded (yaml_error line) = raises (bad_yaml (next_line line))
  parse_loaded value_error = raises load_value_error
  parse_loaded recursion_error = raises too_deep
  parse_loaded (loaded (dict fs)) =
      lift_error (Python.exceeds python (dict fs)) (parse_plan_dict (dict fs))
  parse_loaded (loaded v) = raises top_not_mapping

  abbrev pub parse_text : Reading → Call LoadError ParsedPlan
  parse_text unreadable = raises bad_file
  parse_text undecodable = raises unicode_error
  parse_text (text s) = parse_loaded (Python.safe_load python s)

  abbrev pub parse_sized : Stat → Reading → Call LoadError ParsedPlan
  parse_sized missing r = raises file_not_found
  parse_sized no_stat r = raises bad_file
  parse_sized (size n) r = if ltb max_file_size n then raises (too_large n) else parse_text r

  unfoldable pub parse_plan : PlanFile → Call LoadError ParsedPlan
  parse_plan f = parse_sized f.stat f.reading

-- PlanParseError
unfoldable pub is_plan_parse_error : LoadError → Bool
is_plan_parse_error file_not_found = false
is_plan_parse_error unicode_error = false
is_plan_parse_error load_value_error = false
is_plan_parse_error too_deep = false
is_plan_parse_error (plan_error overflow_error) = false
is_plan_parse_error _ = true
