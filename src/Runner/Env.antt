-- ===== src/Runner/Env.antt =====
-- `build_worker_env`, and what `Runner.spawn` makes of the environment before `Popen`.
mod Grants
mod Tests
use Prim.Native.Char.{Char, code}
use tab_conductor.Prelude.{
  leb, String, Bool, true, false, ◌&&◌, ◌||◌, Option, none, some, List, [], ◌∷◌, ◌==◌, contains,
  if◌then◌else◌,
}
use tab_conductor.Dict.{Dict, lookup, insert}

-- _ENV_ALLOW_LIST; the order of a set shows in no look-up
abbrev pub env_allow_list : List String
env_allow_list =
    "PATH" ∷ "HOME" ∷ "LANG" ∷ "LC_ALL" ∷ "LOGNAME" ∷ "USER" ∷ "TZ" ∷ "TERM" ∷ "XDG_RUNTIME_DIR"
    ∷ []

-- if val is not None: env[key] = val
abbrev pub put_some : String → Option String → Dict String → Dict String
put_some key none env = env
put_some key (some val) env = insert key val env

unfoldable pub forward_all : Dict String → List String → Dict String → Dict String
forward_all environ [] env = env
forward_all environ (key ∷ keys) env =
    forward_all environ keys (put_some key (lookup key environ) env)

abbrev pub forward_if : Bool → Dict String → String → Dict String → Dict String
forward_if pass environ key env = if pass then put_some key (lookup key environ) env else env

abbrev pub or_default : String → Option String → String
or_default default none = default
or_default default (some val) = val

-- dict.update
unfoldable pub update : Dict String → Dict String → Dict String
update env [] = env
update env ((key, val) ∷ extra) = update (insert key val env) extra

unfoldable pub build_worker_env : Dict String → Dict String → Bool → Bool → Dict String
build_worker_env environ extra pass_anthropic_key pass_hmac_key =
    let env = insert "LC_ALL" "C.UTF-8" (forward_all environ env_allow_list []) in
    let env = forward_if pass_anthropic_key environ "ANTHROPIC_API_KEY" env in
    let env = forward_if pass_hmac_key environ "TAB_CONDUCTOR_HMAC_KEY" env in update env extra

abbrev is_same_char : Char → Char → Bool
is_same_char a b = leb (code a) (code b) && leb (code b) (code a)

-- str.startswith
unfoldable pub starts_with : String → String → Bool
starts_with s String.[] = true
starts_with String.[] (String.◌∷◌ p prefix) = false
starts_with (String.◌∷◌ c s) (String.◌∷◌ p prefix) = is_same_char c p && starts_with s prefix

unfoldable pub is_allowed : String → Bool
is_allowed k =
    contains k env_allow_list
    || k == "LC_ALL"
    || k == "ANTHROPIC_API_KEY"
    || k == "TAB_CONDUCTOR_HMAC_KEY"
    || starts_with k "MOCK_"
    || starts_with k "TAB_CONDUCTOR_"

unfoldable pub allow_each : Dict String → Dict String → Dict String
allow_each allowed_env [] = allowed_env
allow_each allowed_env ((k, v) ∷ env) =
    allow_each (if is_allowed k then insert k v allowed_env else allowed_env) env

-- the environment that `Popen` gets, of `spec.env`
unfoldable pub spawn_env : Bool → Dict String → Dict String
spawn_env secret_env_filter env =
    insert "LC_ALL" "C.UTF-8" (if secret_env_filter then allow_each [] env else env)

-- the environment that `_spawn_ready_workers` of orchestrator.py builds
unfoldable pub task_env : Dict String → Bool → Dict String
task_env environ require_hmac =
    build_worker_env environ
      (("MOCK_SLEEP_S", or_default "0.3" (lookup "MOCK_SLEEP_S" environ)) ∷ []) true require_hmac
