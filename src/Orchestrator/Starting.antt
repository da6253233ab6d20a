-- ===== src/Orchestrator/Starting.antt =====
-- `__init__` on the plans that the parser accepts.
use tab_conductor.Prelude.{
  String, ◌≡◌, refl, none, List, [], ◌∷◌, All, Bool-cases, inl, inr, ap, ◌∙◌, ◌==◌,
}
use tab_conductor.Prelude.Call.{returns}
use tab_conductor.Dict.{Dict, insert}
use tab_conductor.Value.{Value, get}
use tab_conductor.Value.Number.{to_int}
use tab_conductor.Plan
use tab_conductor.Plan.{adjacency, adjacency_from}
use tab_conductor.Plan.Accepted.{parse_plan_dict-check_dag_cycles}
use tab_conductor.Orchestrator.State.{
  TaskRecord, Config, Orchestrator, record_of, records_of, graph, new,
}
use tab_conductor.Orchestrator.Initial.{idle}

graph-insert :
    (k : String) (t : TaskRecord) (d : Dict TaskRecord)
    → graph (insert k t d) ≡ insert k t.depends_on (graph d)
unfolding graph insert
graph-insert k t [] = refl
graph-insert k t ((j, u) ∷ d) = elim (Bool-cases (j == k)) [
  | inl same ↦ rw same refl
  | inr other ↦ rw (other, graph-insert k t d) refl
]

-- no task of the plan has a `retries` key of its own
abbrev pub HasNoRetries : List Plan.Task → Type 0
HasNoRetries = All (λ (t : Plan.Task). get "retries" t.extra ≡ none)

record_of-returns :
    (t : Plan.Task)
    → get "retries" t.extra ≡ none
    → (r : TaskRecord) × (record_of t ≡ returns r) × (r.id ≡ t.id) × (r.depends_on ≡ t.depends_on)
unfolding record_of to_int
record_of-returns t h = rw h (_, refl, refl, refl)

records_of-graph :
    (d : Dict TaskRecord) (ts : List Plan.Task)
    → HasNoRetries ts
    → (d' : Dict TaskRecord) × (records_of d ts ≡ returns d')
      × (graph d' ≡ adjacency_from (graph d) ts)
unfolding records_of adjacency_from
records_of-graph d [] h = (d, refl, refl)
records_of-graph d (t ∷ ts) h =
    let (r, made, id, deps) = record_of-returns t h.0 in
    let (d', all, same) = records_of-graph (insert r.id r d) ts h.1 in
    (
      d',
      rw made all,
      same ∙ ap (λ adj. adjacency_from adj ts) (graph-insert r.id r d ∙ cc (id, deps)),
    )

-- If `parse_plan_dict` accepts a plan and no task of it has a `retries` key of its own, then `__init__` makes
-- an orchestrator of it, for every configuration.
pub parse_plan_dict-new :
    (v : Value) (p : Plan.ParsedPlan) (config : Config)
    → Plan.parse_plan_dict v ≡ returns p
    → HasNoRetries p.tasks
    → (o : Orchestrator) × (new config p.tasks ≡ returns o)
unfolding new graph
parse_plan_dict-new v p config accepted h =
    let (d, made, same) = records_of-graph [] p.tasks h in
    let (s, done) = parse_plan_dict-check_dag_cycles v p accepted in
    (idle config d, rw (made, same, done) refl)
