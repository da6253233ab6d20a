-- ===== src/Plan/Accepted.antt =====
-- The plans that `parse_plan_dict` accepts, as a whole and before the orchestrator's own check of the graph.
use tab_conductor.Prelude.{
  String, ◌≡◌, refl, ◌≢◌, true, false, List, [], ◌∷◌, arith, eq_iff, eq_refl, contains, All, ◌||◌,
}
use tab_conductor.Value.{Value, Items, nil, cons, get}
use tab_conductor.Dict.{lookup, insert, has, has-insert, lookup-insert}
use tab_conductor.Dag.{Adjacency, Outcome, finished, cycle, unknown, key_error, out_of_fuel, Search}
use tab_conductor.Dag
use tab_conductor.Dag.Graph.{IsAcyclic, deps_of}
use tab_conductor.Dag.Decision.{Verdict, check_dag_cycles-Verdict}
use tab_conductor.Prelude.Call.{returns, >>=-returns}
use tab_conductor.Plan.{
  Task, ParsedPlan, required, items_or, fields_or, validate_tasks, ids, check_dependencies,
  check_references, check_dag_cycles, adjacency, adjacency_from, verdict, parse_plan_dict,
  nonempty_items, not_mapping, no_tasks, tasks_not_list,
}
use tab_conductor.Plan.WellFormed.{IsValid, AreFresh, validate_tasks-IsValid}

abbrev pub AreKnown : List String → List String → Type 0
AreKnown known = All (λ dep. contains dep known ≡ true)

check_dependencies-AreKnown :
    (known : List String) (id : String) (deps : List String)
    → check_dependencies known id deps ≡ returns tt
    → AreKnown known deps
unfolding check_dependencies
check_dependencies-AreKnown known id [] h = tt
check_dependencies-AreKnown known id (dep ∷ deps) h =
    (ground arith, check_dependencies-AreKnown known id deps (ground arith))

check_references-AreKnown :
    (known : List String) (tasks : List Task)
    → check_references known tasks ≡ returns tt
    → All (λ (t : Task). AreKnown known t.depends_on) tasks
unfolding check_references
check_references-AreKnown known [] h = tt
check_references-AreKnown known (t ∷ ts) h = (
  check_dependencies-AreKnown known t.id t.depends_on (ground arith),
  check_references-AreKnown known ts (ground arith),
)

Verdict-IsAcyclic :
    (adj : Adjacency) (o : Outcome) → Verdict adj false o → verdict o ≡ returns tt → IsAcyclic adj
Verdict-IsAcyclic adj (finished s) v h = v
Verdict-IsAcyclic adj (cycle path dep) v h = cc
Verdict-IsAcyclic adj (unknown u dep) v h = cc
Verdict-IsAcyclic adj (key_error node) v h = cc
Verdict-IsAcyclic adj out_of_fuel v h = cc

check_dag_cycles-IsAcyclic :
    (tasks : List Task) → check_dag_cycles tasks ≡ returns tt → IsAcyclic (adjacency tasks)
unfolding check_dag_cycles
check_dag_cycles-IsAcyclic tasks h =
    Verdict-IsAcyclic (adjacency tasks) (Dag.check_dag_cycles false (adjacency tasks))
      (check_dag_cycles-Verdict false (adjacency tasks)) h

abbrev pub AreDistinct : List String → Type 0
AreDistinct [] = Unit
AreDistinct (x ∷ xs) = (contains x xs ≡ false) × AreDistinct xs

not_seen :
    (v : String) (seen : List String) (ts : List Task)
    → AreFresh seen ts
    → contains v seen ≡ true
    → contains v (ids ts) ≡ false
unfolding contains
not_seen v seen [] f h = refl
not_seen v seen (t ∷ ts) f h = ground (arith, not_seen v (t.id ∷ seen) ts f.1, f.0, eq_iff t.id v)

AreFresh-AreDistinct :
    (seen : List String) (ts : List Task) → AreFresh seen ts → AreDistinct (ids ts)
unfolding contains
AreFresh-AreDistinct seen [] f = tt
AreFresh-AreDistinct seen (t ∷ ts) f = (
  not_seen t.id (t.id ∷ seen) ts f.1 (ground (arith, eq_refl t.id)),
  AreFresh-AreDistinct _ ts f.1,
)

pub record IsWellFormed (tasks : List Task) : Type 0 where
  pub some_task : tasks ≢ []
  pub valid : All IsValid tasks
  pub distinct : AreDistinct (ids tasks)
  pub known : All (λ (t : Task). AreKnown (ids tasks) t.depends_on) tasks
  pub acyclic : IsAcyclic (adjacency tasks)

-- the steps of a successful run
record Run (tasks : List Task) : Type 0 where
  items : Items
  nonempty : (all : Items) × (nonempty_items all ≡ returns items)
  validated : validate_tasks 0 [] items ≡ returns tasks
  referenced : check_references (ids tasks) tasks ≡ returns tt
  checked : check_dag_cycles tasks ≡ returns tt

parse_plan_dict-Run : (v : Value) {p : ParsedPlan} → parse_plan_dict v ≡ returns p → Run p.tasks
unfolding parse_plan_dict
parse_plan_dict-Run v {p} h =
    let (fs, _, h) = >>=-returns (fields_or not_mapping v) _ h in
    let (raw, _, h) = >>=-returns (required no_tasks (get "tasks" fs)) _ h in
    let (all, _, h) = >>=-returns (items_or tasks_not_list raw) _ h in
    let (items, filled, h) = >>=-returns (nonempty_items all) _ h in
    let (tasks, validated, h) = >>=-returns (validate_tasks 0 [] items) _ h in
    let same : tasks ≡ p.tasks = ground (arith, h) in
    record {
      items = items;
      nonempty = (all, filled);
      validated = ground arith;
      referenced = ground (arith, same);
      checked = ground (arith, same);
    }

validate_tasks_some :
    (all : Items) {items : Items} {tasks : List Task}
    → nonempty_items all ≡ returns items
    → validate_tasks 0 [] items ≡ returns tasks
    → tasks ≢ []
unfolding nonempty_items validate_tasks
validate_tasks_some (cons v vs) h e empty = ground arith
validate_tasks_some nil h e empty = cc

-- If the parser accepts a plan, the plan has a task; every id and prompt is a trimmed text that is
-- not empty; priorities lie in [0, 9] and max_retries in [0, 10]; no two tasks have one id; every
-- dependency is trimmed, not empty and the id of a task; and no task depends on itself, directly or
-- through others.
pub parse_plan_dict-IsWellFormed :
    (v : Value) (p : ParsedPlan) → parse_plan_dict v ≡ returns p → IsWellFormed p.tasks
parse_plan_dict-IsWellFormed v p h =
    let run = parse_plan_dict-Run v h in
    let (valid, fresh) = validate_tasks-IsValid 0 [] run.items p.tasks run.validated in
    record {
      some_task = validate_tasks_some run.nonempty.0 run.nonempty.1 run.validated;
      valid = valid;
      distinct = AreFresh-AreDistinct [] p.tasks fresh;
      known = check_references-AreKnown (ids p.tasks) p.tasks run.referenced;
      acyclic = check_dag_cycles-IsAcyclic p.tasks run.checked;
    }

has-adjacency_from :
    (v : String) (adj : Adjacency) (tasks : List Task)
    → has v (adjacency_from adj tasks) ≡ (has v adj || contains v (ids tasks))
unfolding adjacency_from contains
has-adjacency_from v adj [] = ground arith
has-adjacency_from v adj (t ∷ ts) = ground (
  arith,
  has-adjacency_from v (insert t.id t.depends_on adj) ts,
  has-insert t.id v t.depends_on adj,
)

-- Each dependency in an adjacency built from tasks is one that a task lists.
abbrev Closed : List String → Adjacency → Type 0
Closed known adj = (u v : String) → contains v (deps_of adj u) ≡ true → contains v known ≡ true

contains-AreKnown :
    (known : List String) (deps : List String) (v : String)
    → AreKnown known deps
    → contains v deps ≡ true
    → contains v known ≡ true
unfolding contains
contains-AreKnown known [] v a h = cc
contains-AreKnown known (d ∷ ds) v a h =
    ground (arith, a.0, eq_iff d v, contains-AreKnown known ds v a.1)

Closed-insert :
    (known : List String) (adj : Adjacency) (t : Task)
    → AreKnown known t.depends_on
    → Closed known adj
    → Closed known (insert t.id t.depends_on adj)
Closed-insert known adj t a c u v h =
    ground (
      arith,
      lookup-insert t.id u t.depends_on adj,
      c u v,
      contains-AreKnown known t.depends_on v a,
    )

adjacency_from-Closed :
    (known : List String) (adj : Adjacency) (tasks : List Task)
    → All (λ (t : Task). AreKnown known t.depends_on) tasks
    → Closed known adj
    → Closed known (adjacency_from adj tasks)
unfolding adjacency_from
adjacency_from-Closed known adj [] a c = c
adjacency_from-Closed known adj (t ∷ ts) a c =
    adjacency_from-Closed known (insert t.id t.depends_on adj) ts a.1
      (Closed-insert known adj t a.0 c)

Verdict-finished :
    (adj : Adjacency) (o : Outcome)
    → Verdict adj true o
    → IsAcyclic adj
    → ((u v : String) → contains v (deps_of adj u) ≡ true → has v adj ≡ true)
    → (s : Search) × (o ≡ finished s)
Verdict-finished adj (finished s) v a c = (s, refl)
Verdict-finished adj (cycle path dep) v a c = absurd (a dep v.2)
Verdict-finished adj (unknown u dep) v a c = cc (c u dep v.1)
Verdict-finished adj (key_error node) v a c = absurd v
Verdict-finished adj out_of_fuel v a c = absurd v

IsWellFormed-strict :
    (tasks : List Task)
    → IsWellFormed tasks
    → (s : Search) × (Dag.check_dag_cycles true (adjacency tasks) ≡ finished s)
unfolding lookup has contains
IsWellFormed-strict tasks w =
    Verdict-finished (adjacency tasks) (Dag.check_dag_cycles true (adjacency tasks))
      (check_dag_cycles-Verdict true (adjacency tasks)) w.acyclic
      (λ u v h. ground (
        arith,
        has-adjacency_from v [] tasks,
        adjacency_from-Closed (ids tasks) [] tasks w.known (λ x y e. cc e) u v,
      ))

-- The orchestrator's stricter check, which also refuses unknown dependencies, returns on the task
-- graph of every plan that the parser accepts.
pub parse_plan_dict-check_dag_cycles :
    (v : Value) (p : ParsedPlan)
    → parse_plan_dict v ≡ returns p
    → (s : Search) × (Dag.check_dag_cycles true (adjacency p.tasks) ≡ finished s)
parse_plan_dict-check_dag_cycles v p h =
    IsWellFormed-strict p.tasks (parse_plan_dict-IsWellFormed v p h)
