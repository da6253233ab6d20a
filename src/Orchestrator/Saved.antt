-- ===== src/Orchestrator/Saved.antt =====
-- The updates that the orchestrator sends to the store, against the schema.
use tab_conductor.Prelude.{◌≡◌, true, List, [], ◌∷◌, arith, all}
use tab_conductor.Prelude.Int.{ℤ}
use tab_conductor.Cost.Usd.{Money}
use tab_conductor.Orchestrator.State.{
  TaskRecord, Effect, put_task, put_worker, set_status, set_cost, stuck_event, escalate, interrupt,
  terminate,
}
use tab_conductor.Orchestrator.Retry.{suc_ℤ}
use tab_conductor.Orchestrator.Document.{TaskDict, task_to_dict, upsert_task, Body, Stamp, mutate}
use tab_conductor.Orchestrator.Schema.{fits_numbers, fits_task, fits_body}
use tab_conductor.Orchestrator.Records.{IsKept, OnPut}

-- The record's dictionary fits the schema.
abbrev pub IsFit : TaskRecord → Type 0
IsFit t = fits_task (task_to_dict t) ≡ true

fits_numbers-suc :
    (priority retries max_retries : ℤ)
    → fits_numbers priority retries max_retries ≡ true
    → fits_numbers priority (suc_ℤ retries) max_retries ≡ true
unfolding fits_numbers
fits_numbers-suc priority retries max_retries h = ground (arith, h)

pub IsFit-IsKept : IsKept IsFit
unfolding fits_task
IsFit-IsKept = record {
  runs = λ t w wall h. ground (arith, h);
  fails_to_start = λ t message h. ground (arith, h);
  fails = λ t code wall h. ground (arith, h);
  ends = λ t wall h. ground (arith, h);
  retries =
      λ t clock more h. ground (arith, h, fits_numbers-suc t.priority t.retries t.max_retries);
  gives_up = λ t h. ground (arith, h);
}

all-upsert_task :
    (d : TaskDict) (ts : List TaskDict)
    → fits_task d ≡ true
    → all fits_task ts ≡ true
    → all fits_task (upsert_task d ts) ≡ true
unfolding all upsert_task
all-upsert_task d [] h hs = ground (arith, h)
all-upsert_task d (t ∷ ts) h hs = ground (arith, h, hs, all-upsert_task d ts)

module _ (m : Money) where
  pub mutate-fits :
      (s : Stamp m) (e : Effect) (b : Body m)
      → Money.le_usd m (Money.zero_usd m) s.total_usd ≡ true
      → OnPut IsFit IsFit-IsKept e
      → fits_body m b ≡ true
      → fits_body m (mutate m s e b) ≡ true
  unfolding mutate fits_body
  mutate-fits s (put_task t) b sum h i =
      ground (arith, i, all-upsert_task (task_to_dict t) b.tasks h)
  mutate-fits s set_cost b sum h i = ground (arith, i, sum)
  mutate-fits s (set_status status) b sum h i = i
  mutate-fits s (put_worker w k pid status) b sum h i = i
  mutate-fits s (stuck_event w) b sum h i = i
  mutate-fits s (escalate w) b sum h i = i
  mutate-fits s (interrupt w) b sum h i = i
  mutate-fits s (terminate w) b sum h i = i
