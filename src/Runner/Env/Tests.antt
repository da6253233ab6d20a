-- ===== src/Runner/Env/Tests.antt =====
-- The environment of a worker of the orchestrator.
use tab_conductor.Prelude.{String, ◌≡◌, refl, true, false, none, [], ◌∷◌, contains}
use tab_conductor.Dict.{Dict, lookup, insert, has}
use tab_conductor.Runner.Env.{
  build_worker_env, forward_all, update, starts_with, is_allowed, allow_each, spawn_env, task_env,
}
use tab_conductor.Runner.Env.Grants.{spawn_env-granted}

abbrev environ : Dict String
environ =
    ("PATH", "/usr/bin")
    ∷ ("LC_ALL", "de_DE.UTF-8")
    ∷ ("AWS_SECRET_ACCESS_KEY", "x")
    ∷ ("ANTHROPIC_API_KEY", "y")
    ∷ ("TAB_CONDUCTOR_HMAC_KEY", "z")
    ∷ []

abbrev extra : Dict String
extra = ("MOCK_SLEEP_S", "0.3") ∷ ("GITHUB_TOKEN", "t") ∷ []

runs : Unit {0}
unfolding lookup insert has contains build_worker_env forward_all update starts_with is_allowed
    allow_each spawn_env task_env
runs = tt

task_env-filtered :
    spawn_env true (task_env environ false)
    ≡ ("PATH", "/usr/bin")
      ∷ ("LC_ALL", "C.UTF-8")
      ∷ ("ANTHROPIC_API_KEY", "y")
      ∷ ("MOCK_SLEEP_S", "0.3")
      ∷ []
unfolding runs
task_env-filtered = refl

spawn_env-granted_example :
    lookup "GITHUB_TOKEN" (spawn_env true (build_worker_env environ extra true false)) ≡ none
unfolding runs
spawn_env-granted_example =
    spawn_env-granted environ extra true false "GITHUB_TOKEN" (refl, (refl, tt))
