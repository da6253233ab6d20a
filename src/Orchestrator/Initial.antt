-- ===== src/Orchestrator/Initial.antt =====
-- The invariant from `__init__` on.
use tab_conductor.Prelude.{
  String, ◌≡◌, true, false, none, some, List, [], ◌∷◌, arith, eq_iff, subst, All, Option-cases, inl,
  inr,
}
use tab_conductor.Prelude.Int.{pos, ◌≤ℤ◌}
use tab_conductor.Prelude.Call.{returns, >>=-returns}
use tab_conductor.Dict.{
  Dict, lookup, insert, lookup-insert, HasDistinctKeys, HasDistinctKeys-insert,
}
use tab_conductor.Value.{get}
use tab_conductor.Value.Number.{to_int}
use tab_conductor.Dag
use tab_conductor.Plan
use tab_conductor.Orchestrator.State.{
  TaskStatus, TaskRecord, Config, Orchestrator, status_of, status_of_text, record_of, records_of,
  graph, dag_verdict, new,
}
use tab_conductor.Orchestrator.Invariant.{Inv, status_at}
use tab_conductor.Orchestrator.Reach.{Reach, Reach-Inv, start-Inv}
use tab_conductor.Orchestrator.Round.{start}

-- A task of a plan that has not been run before: nothing in it says how far it got.
pub record IsUnstarted (t : Plan.Task) : Type 0 where
  pub status : get "status" t.extra ≡ none
  pub retries : get "retries" t.extra ≡ none
  pub max_retries : pos 0 ≤ℤ t.max_retries

record AreFirst (d : Dict TaskRecord) : Type 0 where
  distinct : HasDistinctKeys d
  keyed : (k : String) (t : TaskRecord) → lookup k d ≡ some t → t.id ≡ k
  pending : (k : String) (t : TaskRecord) → lookup k d ≡ some t → t.status ≡ TaskStatus.pending
  bounded : (k : String) (t : TaskRecord) → lookup k d ≡ some t → t.retries ≤ℤ t.max_retries

module _ (t : Plan.Task) (r : TaskRecord) (u : IsUnstarted t) (h : record_of t ≡ returns r) where
  record_of-pending : r.status ≡ TaskStatus.pending
  unfolding record_of status_of status_of_text to_int
  record_of-pending = ground (arith, u.status, u.retries)

  record_of-bounded : r.retries ≤ℤ r.max_retries
  unfolding record_of to_int
  record_of-bounded = ground (arith, u.retries, u.max_retries)

insert-AreFirst :
    (r : TaskRecord) (d : Dict TaskRecord)
    → r.status ≡ TaskStatus.pending
    → r.retries ≤ℤ r.max_retries
    → AreFirst d
    → AreFirst (insert r.id r d)
insert-AreFirst r d p b a = record {
  distinct = HasDistinctKeys-insert r.id r d a.distinct;
  keyed = λ k t h. ground (arith, lookup-insert r.id k r d, eq_iff r.id k, a.keyed k t);
  pending = λ k t h. ground (arith, lookup-insert r.id k r d, a.pending k t);
  bounded = λ k t h. ground (arith, lookup-insert r.id k r d, a.bounded k t);
}

records_of-AreFirst :
    (d d' : Dict TaskRecord) (ts : List Plan.Task)
    → All IsUnstarted ts
    → records_of d ts ≡ returns d'
    → AreFirst d
    → AreFirst d'
unfolding records_of
records_of-AreFirst d d' [] us h a = subst AreFirst (cc h) a
records_of-AreFirst d d' (t ∷ ts) us h a =
    let (r, h1, h2) = >>=-returns (record_of t) (λ r. records_of (insert r.id r d) ts) h in
    records_of-AreFirst (insert r.id r d) d' ts us.1 h2
      (insert-AreFirst r d (record_of-pending t r us.0 h1) (record_of-bounded t r us.0 h1) a)

empty-AreFirst : AreFirst []
unfolding lookup
empty-AreFirst = record {
  distinct = tt;
  keyed = λ k t e. cc e;
  pending = λ k t e. cc e;
  bounded = λ k t e. cc e;
}

abbrev pub idle : Config → Dict TaskRecord → Orchestrator
idle config d = record {
  config = config;
  tasks = d;
  active_handles = [];
  task_worker_map = [];
  halt_event = false;
  exit_code = 0;
  effects = [];
}

module _ (config : Config) (d : Dict TaskRecord) (a : AreFirst d) where
  idle-pending : (k : String) (s : TaskStatus) → status_at d k ≡ some s → s ≡ TaskStatus.pending
  idle-pending k s e = elim (Option-cases (lookup k d)) [
    | inl missing ↦ cc (missing, e)
    | inr (t, found) ↦ cc (found, e, a.pending k t found)
  ]

  idle-Inv : Inv (idle config d)
  unfolding lookup
  idle-Inv = record {
    distinct = a.distinct;
    keyed = a.keyed;
    held = λ k w e. cc e;
    holder = λ k w e. cc e;
    working = λ k w e. cc e;
    assigned = λ k e. cc (idle-pending k _ e);
    supplied = λ k dep t e run c. cc (run, a.pending k t e);
    bounded = a.bounded;
    reported = λ k e. cc (idle-pending k _ e);
    halted = λ e. cc e;
  }

pub new-idle :
    (config : Config) (ts : List Plan.Task) (o : Orchestrator)
    → new config ts ≡ returns o
    → (d : Dict TaskRecord) × (idle config d ≡ o)
unfolding new
new-idle config ts o h =
    let (d, h1, h2) = >>=-returns (records_of [] ts) _ h in
    let (u, h3, h4) = >>=-returns (dag_verdict (Dag.check_dag_cycles true (graph d))) _ h2 in
    (d, cc h4)

-- The orchestrator of a plan of which nothing has been run has the invariant.
pub new-Inv :
    (config : Config) (ts : List Plan.Task) (o : Orchestrator)
    → All IsUnstarted ts
    → new config ts ≡ returns o
    → Inv o
unfolding new
new-Inv config ts o us h =
    let (d, h1, h2) = >>=-returns (records_of [] ts) _ h in
    let (u, h3, h4) = >>=-returns (dag_verdict (Dag.check_dag_cycles true (graph d))) _ h2 in
    subst Inv {x = idle config d} {y = o} (cc h4)
      (idle-Inv config d (records_of-AreFirst [] d ts us h1 empty-AreFirst))

-- If no task of the plan has a status or retries of its own or a negative max_retries, the
-- orchestrator is new, and its loop gets into a state by turns in which each new worker has a new id
-- and by signals, then in this state: the task ids are distinct and each stands under its own key;
-- the map from tasks to workers and the active handles agree; a task has a worker exactly if it is
-- running; the dependencies of a running task are done; no task has more retries than its maximum;
-- and the exit code is not 0 once a task was given up or a halt requested.
pub run-Inv :
    (config : Config) (ts : List Plan.Task) (o o' : Orchestrator)
    → All IsUnstarted ts
    → new config ts ≡ returns o
    → Reach (start o) o'
    → Inv o'
run-Inv config ts o o' us h = Reach-Inv (start o) o' (start-Inv o (new-Inv config ts o us h))
