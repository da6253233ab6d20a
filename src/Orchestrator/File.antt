-- ===== src/Orchestrator/File.antt =====
-- From an accepted plan to the file: `new`, `_init_state`, the run, and its updates through the store.
pub mod Tests
use tab_conductor.Prelude.{
  ℕ, String, ◌≡◌, refl, Bool, true, false, Option, none, some, List, [], ◌∷◌, arith, ◌==◌, eq_iff,
  all, contains, if◌then◌else◌, Bool-cases, inl, inr, subst, All, All-map, ap, ◌∙◌, sym,
}
use tab_conductor.Prelude.Int.{ℤ, pos, ◌≤ℤ◌}
use tab_conductor.Prelude.Call.{Call, returns, >>=-returns}
use tab_conductor.Dict.{
  Dict, lookup, insert, keys, lookup-insert, HasDistinctKeys, HasDistinctKeys-lookup,
}
use tab_conductor.Value.{Value, get}
use tab_conductor.Value.Number.{to_int}
use tab_conductor.Cost.Usd.{Money, MoneyLaws}
use tab_conductor.Dag
use tab_conductor.Plan
use tab_conductor.Plan.WellFormed.{IsValid}
use tab_conductor.Plan.Accepted.{parse_plan_dict-IsWellFormed}
use tab_conductor.Store.{Document, File, Luck, as_is, init, atomic_write}
use tab_conductor.Orchestrator.State.{
  TaskStatus, TaskRecord, Config, Orchestrator, Effect, status_of, status_of_text, record_of,
  records_of, new, graph, dag_verdict,
}
use tab_conductor.Orchestrator.Round.{start}
use tab_conductor.Orchestrator.Invariant.{Inv}
use tab_conductor.Orchestrator.Reach.{Reach, start-Inv}
use tab_conductor.Orchestrator.Initial.{IsUnstarted, new-Inv, idle, new-idle}
use tab_conductor.Orchestrator.Document.{
  TaskDict, task_to_dict, dicts_of, Body, Stamp, initial_body, mutate, send_all, replay,
}
use tab_conductor.Orchestrator.Mirror.{find_task, dict_of, Same, Mirrors, AllAccept, Reach-Mirrors}
use tab_conductor.Orchestrator.Records.{Holds, insert-P}
use tab_conductor.Orchestrator.Records.Turns.{Reach-Holds}
use tab_conductor.Ulid.Parse.{is_ulid}
use tab_conductor.Orchestrator.Schema.{fits_numbers, fits_task, fits_body, fits_schema}
use tab_conductor.Orchestrator.Saved.{IsFit, IsFit-IsKept}
use tab_conductor.Orchestrator.Sent.{IsFine, holding, updates, send_all-holding}

-- The task is unstarted, and the plan gives it no worker and no error.
pub record IsUntouched (t : Plan.Task) : Type 0 where
  pub unstarted : IsUnstarted t
  pub assigned_to : get "assigned_to" t.extra ≡ none
  pub last_error : get "last_error" t.extra ≡ none

record_of-IsFit :
    (t : Plan.Task) (r : TaskRecord) → IsUntouched t → IsValid t → record_of t ≡ returns r → IsFit r
unfolding record_of status_of status_of_text to_int fits_task fits_numbers
record_of-IsFit t r u v h = ground (
  arith, u.unstarted.status, u.unstarted.retries, u.assigned_to, u.last_error, v.priority,
  v.max_retries,
)

abbrev Fit : Dict TaskRecord → Type 0
Fit d = (k : String) (t : TaskRecord) → lookup k d ≡ some t → IsFit t

records_of-Fit :
    (d d' : Dict TaskRecord) (ts : List Plan.Task)
    → All IsUntouched ts
    → All IsValid ts
    → records_of d ts ≡ returns d'
    → Fit d
    → Fit d'
unfolding records_of
records_of-Fit d d' [] us vs h f = subst Fit {x = d} {y = d'} (cc h) f
records_of-Fit d d' (t ∷ ts) us vs h f =
    let (r, h1, h2) = >>=-returns (record_of t) (λ r. records_of (insert r.id r d) ts) h in
    records_of-Fit (insert r.id r d) d' ts us.1 vs.1 h2
      (insert-P IsFit IsFit-IsKept r d (record_of-IsFit t r us.0 vs.0 h1) f)

find_task-dicts_of :
    (k : String) (d : Dict TaskRecord)
    → All (λ e. e.1.id ≡ e.0) d
    → find_task k (dicts_of d) ≡ dict_of (lookup k d)
unfolding find_task dicts_of lookup
find_task-dicts_of k [] h = refl
find_task-dicts_of k ((id, t) ∷ d) h = ground (arith, h, find_task-dicts_of k d h.1)

all-dicts_of : (d : Dict TaskRecord) → All (λ e. IsFit e.1) d → all fits_task (dicts_of d) ≡ true
unfolding all dicts_of
all-dicts_of [] h = refl
all-dicts_of ((k, t) ∷ d) h = ground (arith, h.0, all-dicts_of d h.1)

module _ (m : Money) (run_id : String) (now : ℕ) (usd_cap : Money.Amount m) where
  -- the document that `_init_state` hands to the store
  abbrev pub initial : Orchestrator → Document (Body m)
  initial o = record { version = some (pos 0); body = initial_body m run_id now usd_cap o }

  -- state.json once it was created and the effects of `o'` were sent
  abbrev pub state_file :
      Luck → (ℕ → Luck) → (ℕ → Stamp m) → Orchestrator → Orchestrator → Option (File (Body m))
  state_file created luck stamps o o' =
      send_all m (fits_schema m) luck stamps o'.effects
        (init (fits_schema m) as_is created (initial o) none).file

  module _ (laws : MoneyLaws m) (id : is_ulid 26 run_id ≡ true)
      (limit : Money.le_usd m (Money.zero_usd m) usd_cap ≡ true) (o : Orchestrator) (i : Inv o)
      (f : Fit o.tasks) where
    pub initial-fits : fits_body m (initial_body m run_id now usd_cap o) ≡ true
    unfolding fits_body initial_body
    initial-fits = ground (
      arith,
      id,
      limit,
      laws.le_refl (Money.zero_usd m),
      all-dicts_of o.tasks (
          All-map o.tasks (λ e found. f e.0 e.1 found) (HasDistinctKeys-lookup o.tasks i.distinct)),
    )

    init-holding :
        (created : Luck)
        → IsFine created
        → (init (fits_schema m) as_is created (initial o) none).file
          ≡ holding 0 (initial_body m run_id now usd_cap o)
    unfolding init atomic_write fits_schema
    init-holding created fine = ground (arith, fine.writes, initial-fits)

    initial-Same : Same (initial_body m run_id now usd_cap o).tasks o.tasks
    unfolding initial_body
    initial-Same k = find_task-dicts_of k o.tasks (
        All-map o.tasks (λ e found. i.keyed e.0 e.1 found)
          (HasDistinctKeys-lookup o.tasks i.distinct))

pub new-Fit :
    (config : Config) (ts : List Plan.Task) (o : Orchestrator)
    → All IsUntouched ts
    → All IsValid ts
    → new config ts ≡ returns o
    → Fit o.tasks
unfolding new lookup
new-Fit config ts o us vs h =
    let (d, h1, h2) = >>=-returns (records_of [] ts) _ h in
    let (u, h3, h4) = >>=-returns (dag_verdict (Dag.check_dag_cycles true (graph d))) _ h2 in
    subst (λ o. Fit o.tasks) {x = idle config d} {y = o} (cc h4)
      (records_of-Fit [] d ts us vs h1 (λ k t e. cc e))

pub All-IsUnstarted : (ts : List Plan.Task) → All IsUntouched ts → All IsUnstarted ts
All-IsUnstarted [] us = tt
All-IsUnstarted (t ∷ ts) us = (us.0.unstarted, All-IsUnstarted ts us.1)

new-effects :
    (config : Config) (ts : List Plan.Task) (o : Orchestrator)
    → new config ts ≡ returns o
    → o.effects ≡ []
new-effects config ts o h = let (d, e) = new-idle config ts o h in ap (λ o. o.effects) (sym e)

-- If `parse_plan_dict` accepts a plan, no task of it was touched before, the run's id is an identifier,
-- the usd_cap is not negative, no sum that the cost guard reports is negative, the lock is free and each write
-- succeeds, and no spawn of the run is refused, then state.json holds a document whose version is the
-- number of updates sent and which fits the schema, and whose tasks are, id by id, the dictionaries of the
-- orchestrator's records.
pub run-file :
    (m : Money) (laws : MoneyLaws m) (v : Value) (p : Plan.ParsedPlan) (config : Config)
    (o o' : Orchestrator) (run : Reach (start o) o') (run_id : String) (now : ℕ)
    (usd_cap : Money.Amount m) (created : Luck) (luck : ℕ → Luck) (stamps : ℕ → Stamp m)
    → Plan.parse_plan_dict v ≡ returns p
    → All IsUntouched p.tasks
    → new config p.tasks ≡ returns o
    → AllAccept run
    → is_ulid 26 run_id ≡ true
    → Money.le_usd m (Money.zero_usd m) usd_cap ≡ true
    → ((n : ℕ) → Money.le_usd m (Money.zero_usd m) (stamps n).total_usd ≡ true)
    → IsFine created
    → ((n : ℕ) → IsFine (luck n))
    → (b : Body m) × (state_file m run_id now usd_cap created luck stamps o o'
        ≡ holding (updates m o'.effects) b)
      × (fits_body m b ≡ true)
      × Same b.tasks o'.tasks
unfolding start replay mutate initial_body
run-file m laws v p config o o' run run_id now usd_cap created luck stamps parsed us made accepts id
      limit sums made_well fine =
    let valid = (parse_plan_dict-IsWellFormed v p parsed).valid in
    let i = new-Inv config p.tasks o (All-IsUnstarted p.tasks us) made in
    let f = new-Fit config p.tasks o us valid made in
    let none_yet = new-effects config p.tasks o made in
    let b0 = initial_body m run_id now usd_cap o in
    let held =
      Reach-Holds IsFit IsFit-IsKept (start o) o' (start-Inv o i)
        (record { records = f; written = rw none_yet (tt, tt) }) run in
    let same =
      Reach-Mirrors m stamps b0 (start o) o' run accepts (start-Inv o i)
        (record { same = rw none_yet (initial-Same m run_id now usd_cap laws id limit o i f) }) in
    let (sent, fits) =
      send_all-holding m luck fine stamps sums o'.effects b0 held.written
        (initial-fits m run_id now usd_cap laws id limit o i f) in
    (
      replay m stamps o'.effects b0,
      ap (send_all m (fits_schema m) luck stamps o'.effects)
            (init-holding m run_id now usd_cap laws id limit o i f created made_well)
          ∙ sent,
      fits,
      same.same,
    )
