-- ===== src/Dag/Decision.antt =====
-- What the cycle checks of plan_parser.py and orchestrator.py decide.
use tab_conductor.Prelude.{
  String, ◌≡◌, refl, Bool, true, false, some, [], ◌∷◌, arith, contains, length,
}
use tab_conductor.Dict.{lookup, has, keys, has-eq-contains}
use tab_conductor.Dag.{
  Color, Adjacency, Search, Outcome, finished, cycle, unknown, key_error, out_of_fuel, white,
  initial_color, black, check_dag_cycles,
}
use tab_conductor.Dag.Graph.{
  Edge, Walk, one, more, IsAcyclic, IsPath, IsPath-Walk, Grounded-no_cycle, deps_of,
}
use tab_conductor.Dag.Invariant.{Inv, whites-initial, lookup-initial_color}
use tab_conductor.Dag.Depth.{Post, After, visit_all-Post}

module _ (adj : Adjacency) where
  abbrev start : Search
  start = record { color = initial_color adj; stack = [] }

  Inv-start : Inv adj start
  unfolding contains
  Inv-start = record {
    known = λ v h. ground (arith, lookup-initial_color v adj);
    task = λ v c h. ground (arith, lookup-initial_color v adj);
    safe = λ v h. cc (not_started v black h);
    on_stack = λ v h. ground (arith, lookup-initial_color v adj);
    path = tt;
  }
    where
      not_started : (v : String) (c : Color) → lookup v (initial_color adj) ≡ some c → c ≡ white
      not_started v c h = ground (arith, lookup-initial_color v adj)

  check-Post :
      (strict : Bool)
      → Post strict adj
          (After strict adj start (λ v. contains v (keys adj) ≡ true))
          (check_dag_cycles strict adj)
  unfolding check_dag_cycles
  check-Post strict =
      visit_all-Post strict adj (length adj) start (keys adj) Inv-start refl
        (omega (arith, whites-initial adj)) (λ v h. ground (arith, has-eq-contains v adj))

  -- what an outcome says of the graph
  abbrev pub Verdict : Bool → Outcome → Type 0
  Verdict strict (finished t) = IsAcyclic adj
  Verdict strict (cycle path dep) =
      IsPath adj (dep ∷ path) × (contains dep path ≡ true) × Walk adj dep dep
  Verdict strict (unknown u dep) =
      (strict ≡ true) × (contains dep (deps_of adj u) ≡ true) × (has dep adj ≡ false)
  Verdict strict (key_error node) = ⊥
  Verdict strict out_of_fuel = ⊥

  Walk-Edge : {u v : String} → Walk adj u v → (w : String) × Edge adj u w
  Walk-Edge (one e) = (_, e)
  Walk-Edge (more e p) = (_, e)

  has_of_dep : (u v : String) (l : Adjacency) → contains v (deps_of l u) ≡ true → has u l ≡ true
  unfolding has lookup contains
  has_of_dep u v [] h = cc
  has_of_dep u v ((id, deps) ∷ l) h = ground (arith, has_of_dep u v l)

  all_black-IsAcyclic :
      (t : Search)
      → Inv adj t
      → ((v : String)
          → contains v (keys adj) ≡ true
          → has v adj ≡ true
          → lookup v t.color ≡ some black)
      → IsAcyclic adj
  all_black-IsAcyclic t i all u w =
      let (v, e) = Walk-Edge w in
      let known = has_of_dep u v adj (Edge.listed e) in
      Grounded-no_cycle adj (i.safe u (all u (ground (arith, has-eq-contains u adj)) known)) w

  Post-Verdict :
      (strict : Bool) (o : Outcome)
      → Post strict adj (After strict adj start (λ v. contains v (keys adj) ≡ true)) o
      → Verdict strict o
  Post-Verdict strict (finished t) p = all_black-IsAcyclic t p.0 p.2
  Post-Verdict strict (cycle path dep) p = (p.0, p.1, IsPath-Walk adj dep dep path p.0 p.1)
  Post-Verdict strict (unknown u dep) p = p
  Post-Verdict strict (key_error node) p = p
  Post-Verdict strict out_of_fuel p = p

-- For every task graph the cycle check returns or raises, with no failed look-up and within a depth
-- of nested calls of at most the number of tasks. It returns only if no task depends on itself,
-- directly or through others. The path of a cycle error is a chain of dependencies that comes back
-- to a node on it. Only the orchestrator's check reports an unknown dependency, and then a task
-- does list it and no task has that id.
pub check_dag_cycles-Verdict :
    (strict : Bool) (adj : Adjacency) → Verdict adj strict (check_dag_cycles strict adj)
check_dag_cycles-Verdict strict adj =
    Post-Verdict adj strict (check_dag_cycles strict adj) (check-Post adj strict)
