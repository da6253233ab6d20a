-- ===== src/Orchestrator/Summary.antt =====
-- state.py `read_summary`, on what the orchestrator writes: every worker's dictionary has a status.
use tab_conductor.Prelude.{
  ℕ, zero, suc, ◌+◌, String, ◌≡◌, refl, Bool, true, false, Option, none, some, List, [], ◌∷◌, arith,
  ◌==◌, eq_iff, length, if◌then◌else◌, Bool-cases, inl, inr, ◌∙◌, ap,
}
use tab_conductor.Prelude.Int.{ℤ}
use tab_conductor.Prelude.Call.{Call, returns, ◌>>=◌}
use tab_conductor.Dict.{Dict, lookup, insert, lookup-insert}
use tab_conductor.Cost.Usd.{Money}
use tab_conductor.Store.{Document, File, StoreError, Luck, as_is, read_raw, update}
use tab_conductor.Store.Serial.{update-Committed}
use tab_conductor.Orchestrator.State.{RunStatus, WorkerStatus}
use tab_conductor.Orchestrator.Document.{WorkerDict, Body}

abbrev pub status_text : WorkerStatus → String
status_text WorkerStatus.running = "running"
status_text WorkerStatus.done = "done"
status_text WorkerStatus.failed = "failed"

-- status_counts.get(st, 0)
abbrev or_zero : Option ℕ → ℕ
or_zero none = 0
or_zero (some n) = n

-- the loop over the workers
unfoldable pub count_statuses : Dict ℕ → List WorkerDict → Dict ℕ
count_statuses counts [] = counts
count_statuses counts (w ∷ ws) =
    let st = status_text w.status in
    count_statuses (insert st (or_zero (lookup st counts) + 1) counts) ws

-- how many workers have the status `k`
unfoldable pub with_status : String → List WorkerDict → ℕ
with_status k [] = 0
with_status k (w ∷ ws) =
    if status_text w.status == k then suc (with_status k ws) else with_status k ws

-- the entry of a status that so many workers have
abbrev pub entry : ℕ → Option ℕ
entry zero = none
entry (suc n) = some (suc n)

-- the sum of all counts
unfoldable pub total : Dict ℕ → ℕ
total [] = 0
total ((k, n) ∷ d) = n + total d

abbrev counted : Option ℕ → ℕ → Option ℕ
counted none n = entry n
counted (some m) n = some (m + n)

counted-zero : (o : Option ℕ) → o ≡ counted o 0
counted-zero none = refl
counted-zero (some m) = ap some (omega arith)

counted-suc : (o : Option ℕ) (n : ℕ) → counted (some (or_zero o + 1)) n ≡ counted o (suc n)
counted-suc none n = ap some (omega arith)
counted-suc (some m) n = ap some (omega arith)

lookup-count_statuses :
    (k : String) (counts : Dict ℕ) (ws : List WorkerDict)
    → lookup k (count_statuses counts ws) ≡ counted (lookup k counts) (with_status k ws)
unfolding count_statuses with_status
lookup-count_statuses k counts [] = counted-zero (lookup k counts)
lookup-count_statuses k counts (w ∷ ws) =
    let st = status_text w.status in
    let next = or_zero (lookup st counts) + 1 in
    elim (Bool-cases (st == k)) [
      | inl same ↦ rw same (
          lookup-count_statuses k (insert st next counts) ws
          ∙ ap (λ o. counted o (with_status k ws))
              (lookup-insert st k next counts
                ∙ ap (λ b. if b then some next else lookup k counts) {x = st == k} {y = true} same)
          ∙ ap (λ j. counted (some (or_zero (lookup j counts) + 1)) (with_status k ws))
              ((eq_iff st k).0 same)
          ∙ counted-suc (lookup k counts) (with_status k ws))
      | inr other ↦ rw other (
          lookup-count_statuses k (insert st next counts) ws
          ∙ ap (λ o. counted o (with_status k ws))
              (lookup-insert st k next counts
                ∙ ap (λ b. if b then some next else lookup k counts) {x = st == k} {y = false}
                    other))
    ]

total-insert :
    (k : String) (d : Dict ℕ) → total (insert k (or_zero (lookup k d) + 1) d) ≡ suc (total d)
unfolding total insert lookup
total-insert k [] = refl
total-insert k ((j, n) ∷ d) = ground (arith, total-insert k d)

total-count_statuses :
    (counts : Dict ℕ) (ws : List WorkerDict)
    → total (count_statuses counts ws) ≡ total counts + length ws
unfolding count_statuses
total-count_statuses counts [] = omega arith
total-count_statuses counts (w ∷ ws) =
    let st = status_text w.status in
    omega (
      arith,
      total-insert st counts,
      total-count_statuses (insert st (or_zero (lookup st counts) + 1) counts) ws,
    )

module _ (m : Money) where
  pub record Summary : Type 0 where
    pub run_id : String
    pub version : Option ℤ
    pub status : RunStatus
    pub cost_usd_total : Money.Amount m
    pub workers_count : ℕ
    pub worker_status_counts : Dict ℕ

  abbrev pub summarise : Document (Body m) → Summary
  summarise state = record {
    run_id = state.body.run_id;
    version = state.version;
    status = state.body.status;
    cost_usd_total = state.body.cost_usd_total;
    workers_count = length state.body.workers;
    worker_status_counts = count_statuses [] state.body.workers;
  }

  -- `is_valid` is the store's check, which is not made here
  unfoldable pub read_summary :
      (Document (Body m) → Bool) → Option (File (Body m)) → Call StoreError Summary
  read_summary is_valid file = read_raw is_valid file >>= λ state. returns (summarise state)

  -- what a summary promises of the document it is read from
  pub record Summarises (d : Document (Body m)) (s : Summary) : Type 0 where
    pub version : s.version ≡ d.version
    pub status : s.status ≡ d.body.status
    pub counts :
        (k : String) → lookup k s.worker_status_counts ≡ entry (with_status k d.body.workers)
    pub workers_count : s.workers_count ≡ length d.body.workers
    pub total : total s.worker_status_counts ≡ s.workers_count

  summarise-Summarises : (d : Document (Body m)) → Summarises d (summarise d)
  unfolding lookup total
  summarise-Summarises d = record {
    version = refl;
    status = refl;
    counts = λ k. lookup-count_statuses k [] d.body.workers;
    workers_count = refl;
    total = omega (arith, total-count_statuses [] d.body.workers);
  }

  -- After an update that returns a document, `read_summary` returns, with the version and the status of
  -- that document, the number of its workers, and for each text the number of workers with this status,
  -- with no entry if there is none; these numbers add up to the number of workers.
  pub update-read_summary :
      (is_valid : Document (Body m) → Bool) (luck : Luck)
      (mutator : Document (Body m) → Call StoreError (Document (Body m)))
      (file : Option (File (Body m))) (d : Document (Body m))
      → (update is_valid as_is luck mutator file).result ≡ returns d
      → (s : Summary) × (read_summary is_valid (update is_valid as_is luck mutator file).file
          ≡ returns s)
        × Summarises d s
  unfolding read_summary read_raw
  update-read_summary is_valid luck mutator file d h =
      let k = update-Committed is_valid as_is luck mutator file d h in
      (summarise d, rw k.now refl, summarise-Summarises d)
