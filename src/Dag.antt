-- ===== src/Dag.antt =====
-- `_check_dag_cycles` of src/tab_conductor/plan_parser.py and src/tab_conductor/orchestrator.py: the
-- depth-first search in three colours. The two differ in a dependency that is no task: the parser
-- skips it (it has refused such plans before), the orchestrator raises (`strict`). Python's call
-- stack is the fuel, one unit for each nested `dfs`: the limit that
-- Python sets to it (RecursionError) is not in the search itself, but where it is called (Plan/Load.antt and
-- Orchestrator/Create.antt); the path is held with its last node first.
pub mod Graph
pub mod Invariant
pub mod Depth
pub mod Decision
mod Tests
use tab_conductor.Prelude.{
  ℕ, zero, suc, String, Bool, true, false, Option, none, some, List, [], ◌∷◌, map, if◌then◌else◌,
  length,
}
use tab_conductor.Dict.{Dict, lookup, insert, keys}

pub data Color : Type 0 where
  white gray black : Color

-- adj: the ids of the tasks, each with its `depends_on`
abbrev pub Adjacency : Type 0
Adjacency = Dict (List String)

-- the variables that `dfs` closes over
pub record Search : Type 0 where
  pub color : Dict Color
  pub stack : List String

-- `cycle stack dep` reports the path `stack + [dep]`; `unknown node dep` is the orchestrator's
-- error for a dependency that is no task; `key_error` is a failed look-up `adj[node]`
pub data Outcome : Type 0 where
  finished : Search → Outcome
  cycle : List String → String → Outcome
  unknown : String → String → Outcome
  key_error : String → Outcome
  out_of_fuel : Outcome

infixl 5 ◌>>=◌
abbrev pub ◌>>=◌ : Outcome → (Search → Outcome) → Outcome
finished s >>= f = f s
cycle path dep >>= f = cycle path dep
unknown node dep >>= f = unknown node dep
key_error node >>= f = key_error node
out_of_fuel >>= f = out_of_fuel

unfoldable pub enter : String → Search → Search
enter node s = record { color = insert node gray s.color; stack = node ∷ s.stack }

-- stack.pop()
abbrev pub pop : List String → List String
pop [] = []
pop (x ∷ xs) = xs

unfoldable pub leave : String → Search → Search
leave node s = record { color = insert node black s.color; stack = pop s.stack }

abbrev pub initial_color : Adjacency → Dict Color
initial_color [] = []
initial_color ((id, deps) ∷ adj) = (id, white) ∷ initial_color adj

module _ (strict : Bool) (adj : Adjacency) where
  -- the body of `for dep in adj[node]`, with the recursive call as `rec`
  unfoldable pub visit_dep :
      (Search → String → Outcome) → String → Search → String → Option Color → Outcome
  visit_dep rec node s dep none = if strict then unknown node dep else finished s
  visit_dep rec node s dep (some gray) = cycle s.stack dep
  visit_dep rec node s dep (some white) = rec s dep
  visit_dep rec node s dep (some black) = finished s

  unfoldable pub visit_deps : (Search → String → Outcome) → String → Search → List String → Outcome
  visit_deps rec node s [] = finished s
  visit_deps rec node s (dep ∷ deps) =
      visit_dep rec node s dep (lookup dep s.color) >>= λ t. visit_deps rec node t deps

  unfoldable pub dfs : ℕ → Search → String → Outcome
  dfs zero s node = out_of_fuel
  dfs (suc fuel) s node = elim (lookup node adj) [
    | none ↦ key_error node
    | some deps ↦ do t ← visit_deps (dfs fuel) node (enter node s) deps; finished (leave node t)
  ]

  -- the body of `for tid in list(color.keys())`
  unfoldable pub visit_root : ℕ → Search → String → Option Color → Outcome
  visit_root fuel s tid (some white) = dfs fuel s tid
  visit_root fuel s tid _ = finished s

  unfoldable pub visit_all : ℕ → Search → List String → Outcome
  visit_all fuel s [] = finished s
  visit_all fuel s (tid ∷ tids) =
      visit_root fuel s tid (lookup tid s.color) >>= λ t. visit_all fuel t tids

  unfoldable pub check_dag_cycles : Outcome
  unfolding visit_all visit_root dfs visit_deps visit_dep enter leave
  check_dag_cycles =
      visit_all (length adj) (record { color = initial_color adj; stack = [] }) (keys adj)
