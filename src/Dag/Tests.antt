-- ===== src/Dag/Tests.antt =====
-- Runs of the cycle check, and the instance of its theorem at a graph with a cycle.
use tab_conductor.Prelude.{◌≡◌, refl, true, false, [], ◌∷◌}
use tab_conductor.Dict.{lookup, insert, keys}
use tab_conductor.Dag.{
  Adjacency, cycle, unknown, check_dag_cycles, visit_all, visit_root, dfs, visit_deps, visit_dep,
  enter, leave,
}
use tab_conductor.Dag.Decision.{Verdict, check_dag_cycles-Verdict}

abbrev diamond : Adjacency
diamond =
    ("verify", "lint" ∷ "types" ∷ [])
    ∷ ("lint", "setup" ∷ [])
    ∷ ("types", "setup" ∷ [])
    ∷ ("setup", [])
    ∷ []

abbrev looped : Adjacency
looped = ("a", "b" ∷ []) ∷ ("b", "c" ∷ []) ∷ ("c", "b" ∷ []) ∷ []

runs : Unit {0}
unfolding check_dag_cycles visit_all visit_root dfs visit_deps visit_dep enter leave lookup insert
    keys
runs = tt

check-looped : check_dag_cycles false looped ≡ cycle ("c" ∷ "b" ∷ "a" ∷ []) "b"
unfolding runs
check-looped = refl

check-dangling : check_dag_cycles true (("a", "z" ∷ []) ∷ []) ≡ unknown "a" "z"
unfolding runs
check-dangling = refl

check_dag_cycles-Verdict_example : Verdict looped false (cycle ("c" ∷ "b" ∷ "a" ∷ []) "b")
unfolding runs
check_dag_cycles-Verdict_example = check_dag_cycles-Verdict false looped
