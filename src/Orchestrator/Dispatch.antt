-- ===== src/Orchestrator/Dispatch.antt =====
-- The invariant in `_spawn_ready_workers`: what `_get_ready_tasks` returns, and one attempt to spawn after the
-- other.
use tab_conductor.Prelude.{
  ℕ, String, ◌≡◌, ◌≢◌, Bool, true, none, some, List, [], ◌∷◌, arith, ◌==◌, eq_iff, contains,
  Bool-cases, inl, inr, All, All-map, all, ap, subst, ◌⊎◌,
}
use tab_conductor.Prelude.Int.{◌≤ℤ◌, leb_ℤ}
use tab_conductor.Prelude.Call.{returns, >>=-returns}
use tab_conductor.Dict.{
  Dict, lookup, insert, has, lookup-insert, lookup-has, HasDistinctKeys-lookup,
}
use tab_conductor.Orchestrator.State.{TaskStatus, TaskRecord, Orchestrator}
use tab_conductor.Orchestrator.Ready.{
  is_pending, is_done, done_ids, is_ready, ready_among, get_ready_tasks, insert_by_priority,
  sort_by_priority,
}
use tab_conductor.Orchestrator.Retry.{maybe_retry_task, ltb_ℤ}
use tab_conductor.Orchestrator.Command.{build_worker_cmd, any_nul}
use tab_conductor.Orchestrator.Spawn.{
  launch_with, Answer, SpawnResult, started, refused, spawned, not_spawned, is_full, settle,
  spawn_task, spawn_each, spawn_ready_workers,
}
use tab_conductor.Orchestrator.Invariant.{status_at, task_at, Inv}
use tab_conductor.Orchestrator.Starts.{Claim, settle-Inv}

-- Every task gets a worker id of its own, which no active worker has.
pub record Fresh (env : String → Answer) (o : Orchestrator) : Type 0 where
  pub apart : (j k : String) → (env j).worker_id ≡ (env k).worker_id → j ≡ k
  pub unused : (j : String) → task_at o.active_handles (env j).worker_id ≡ none

-- A task that the loop over the ready tasks has still to look at.
pub record Candidate (env : String → Answer) (o : Orchestrator) (t : TaskRecord) : Type 0 where
  pub new_worker :
      lookup t.id o.task_worker_map ≡ none → task_at o.active_handles (env t.id).worker_id ≡ none
  pub not_done : status_at o.tasks t.id ≢ some TaskStatus.done
  pub ready :
      (dep : String)
      → contains dep t.depends_on ≡ true
      → status_at o.tasks dep ≡ some TaskStatus.done
  pub fits : t.retries ≤ℤ t.max_retries

-- a task that counts as done is done
contains-done_ids :
    (dep : String) (o : Orchestrator) (i : Inv o) (d : Dict TaskRecord)
    → All (λ e. lookup e.0 o.tasks ≡ some e.1) d
    → contains dep (done_ids d) ≡ true
    → status_at o.tasks dep ≡ some TaskStatus.done
unfolding contains done_ids is_done
contains-done_ids dep o i [] h c = cc
contains-done_ids dep o i ((k, t) ∷ d) h c =
    ground (arith, h.0, i.keyed k t, eq_iff t.id dep, contains-done_ids dep o i d h.1)

all-contains :
    (dep : String) (p : String → Bool) (ds : List String)
    → all p ds ≡ true
    → contains dep ds ≡ true
    → p dep ≡ true
unfolding all contains
all-contains dep p [] h c = cc
all-contains dep p (d ∷ ds) h c = elim (Bool-cases (d == dep)) [
  | inl same ↦ ground (arith, ap p ((eq_iff d dep).0 same))
  | inr other ↦ ground (arith, other, all-contains dep p ds)
]

module _ (now : ℕ) (env : String → Answer) (o : Orchestrator) (i : Inv o)
    (fresh : Fresh env o) where
  pub is_ready-Candidate :
      (k : String) (t : TaskRecord)
      → lookup k o.tasks ≡ some t
      → is_ready now o t ≡ true
      → Candidate env o t
  unfolding is_ready is_pending
  is_ready-Candidate k t found h = record {
    new_worker = λ e. fresh.unused t.id;
    not_done = ground (arith, found, i.keyed k t);
    ready = λ dep c.
        contains-done_ids dep o i o.tasks (HasDistinctKeys-lookup o.tasks i.distinct) (
          all-contains dep (λ d. contains d (done_ids o.tasks)) t.depends_on (ground (arith, h)) c);
    fits = i.bounded k t found;
  }

  ready_among-Candidate :
      (d : Dict TaskRecord)
      → All (λ e. lookup e.0 o.tasks ≡ some e.1) d
      → All (Candidate env o) (ready_among now o d)
  unfolding ready_among
  ready_among-Candidate [] h = tt
  ready_among-Candidate ((k, t) ∷ d) h = elim (Bool-cases (is_ready now o t)) [
    | inl ready ↦ rw ready (is_ready-Candidate k t h.0 ready, ready_among-Candidate d h.1)
    | inr other ↦ rw other (ready_among-Candidate d h.1)
  ]

module _ {κ} (P : TaskRecord → Type κ) where
  pub insert_by_priority-All :
      (t : TaskRecord) (us : List TaskRecord) → P t → All P us → All P (insert_by_priority t us)
  unfolding insert_by_priority
  insert_by_priority-All t [] h hs = (h, tt)
  insert_by_priority-All t (u ∷ us) h hs = elim (Bool-cases (leb_ℤ u.priority t.priority)) [
    | inl first ↦ rw first (h, hs)
    | inr later ↦ rw later (hs.0, insert_by_priority-All t us h hs.1)
  ]

  pub sort_by_priority-All : (ts : List TaskRecord) → All P ts → All P (sort_by_priority ts)
  unfolding sort_by_priority
  sort_by_priority-All [] h = tt
  sort_by_priority-All (t ∷ ts) h =
      insert_by_priority-All t (sort_by_priority ts) h.0 (sort_by_priority-All ts h.1)

module _ (k j : String) (t : TaskRecord) (d : Dict TaskRecord) where
  not_done-insert :
      t.status ≢ TaskStatus.done
      → status_at d j ≢ some TaskStatus.done
      → status_at (insert k t d) j ≢ some TaskStatus.done
  not_done-insert new old e = ground (arith, lookup-insert k j t d)

  done-insert :
      status_at d k ≢ some TaskStatus.done
      → status_at d j ≡ some TaskStatus.done
      → status_at (insert k t d) j ≡ some TaskStatus.done
  done-insert new old = ground (arith, lookup-insert k j t d, eq_iff k j)

module _ (env : String → Answer) (o : Orchestrator) (i : Inv o) (u : TaskRecord)
    (c : Candidate env o u) (idle : lookup u.id o.task_worker_map ≡ none) where
  claim : Claim (env u.id) u o
  claim = record {
    new_worker = c.new_worker idle;
    not_done = c.not_done;
    unassigned = idle;
    ready = c.ready;
    fits = c.fits;
  }

  -- An attempt to spawn leaves the other tasks ready for theirs.
  settle-Candidate :
      (apart : (j k : String) → (env j).worker_id ≡ (env k).worker_id → j ≡ k)
      → (r : SpawnResult) (t : TaskRecord) → Candidate env o t
      → Candidate env (settle (env u.id) r u o) t
  unfolding spawned not_spawned maybe_retry_task
  settle-Candidate apart (started pid) t k = record {
    new_worker = λ e. ground (
      arith,
      lookup-insert u.id t.id (env u.id).worker_id o.task_worker_map,
      k.new_worker,
      lookup-insert (env u.id).worker_id (env t.id).worker_id (record { task_id = u.id; pid = pid })
          o.active_handles,
      apart u.id t.id,
      eq_iff u.id t.id,
      eq_iff (env u.id).worker_id (env t.id).worker_id,
    );
    not_done = not_done-insert u.id t.id _ o.tasks (λ e. cc e) k.not_done;
    ready = λ dep d. done-insert u.id dep _ o.tasks c.not_done (k.ready dep d);
    fits = k.fits;
  }
  settle-Candidate apart (refused message) t k = elim (Bool-cases (ltb_ℤ u.retries u.max_retries)) [
    | inl more ↦ rw more (record {
      new_worker = k.new_worker;
      not_done = not_done-insert u.id t.id _ o.tasks (λ e. cc e) k.not_done;
      ready = λ dep d. done-insert u.id dep _ o.tasks c.not_done (k.ready dep d);
      fits = k.fits;
    })
    | inr last ↦ rw last (record {
      new_worker = k.new_worker;
      not_done = not_done-insert u.id t.id _ o.tasks (λ e. cc e) k.not_done;
      ready = λ dep d. done-insert u.id dep _ o.tasks c.not_done (k.ready dep d);
      fits = k.fits;
    })
  ]

pub spawn_task-settle :
    (env : String → Answer) (t : TaskRecord) (o o' : Orchestrator)
    → spawn_task env t o ≡ returns o'
    → (o ≡ o')
      ⊎ ((lookup t.id o.task_worker_map ≡ none) × (settle (env t.id) (env t.id).result t o ≡ o'))
unfolding spawn_task
spawn_task-settle env t o o' h = elim (Bool-cases (has t.id o.task_worker_map)) [
  | inl taken ↦ inl (ground (arith, taken, h))
  | inr idle ↦
      let (cmd, built, settled) =
        >>=-returns (build_worker_cmd o.config t (env t.id).worker_id) (launch_with (env t.id) t o)
          {b = o'} (cc (idle, h)) in
      elim (Bool-cases (any_nul cmd)) [
        | inl nul ↦ cc (nul, settled)
        | inr sent ↦ inr (lookup-has t.id o.task_worker_map idle, cc (sent, settled))
      ]
]

module _ (env : String → Answer)
    (apart : (j k : String) → (env j).worker_id ≡ (env k).worker_id → j ≡ k) where
  All-settle :
      (o : Orchestrator) (i : Inv o) (t : TaskRecord) (ts : List TaskRecord)
      → Candidate env o t
      → lookup t.id o.task_worker_map ≡ none
      → All (Candidate env o) ts
      → All (Candidate env (settle (env t.id) (env t.id).result t o)) ts
  All-settle o i t ts c idle cs =
      All-map ts (settle-Candidate env o i t c idle apart (env t.id).result) cs

  spawn_each-Inv :
      (ts : List TaskRecord) (o o' : Orchestrator)
      → All (Candidate env o) ts
      → spawn_each env ts o ≡ returns o'
      → Inv o
      → Inv o'
  unfolding spawn_each
  spawn_each-Inv [] o o' cs h i = subst Inv (cc h) i
  spawn_each-Inv (t ∷ ts) o o' cs h i = elim (Bool-cases (is_full o)) [
    | inl full ↦ subst Inv (cc (full, h)) i
    | inr room ↦
        let (o1, h1, h2) =
          >>=-returns (spawn_task env t o) (spawn_each env ts) {b = o'} (cc (room, h)) in
        elim (spawn_task-settle env t o o1 h1) [
          | inl same ↦ spawn_each-Inv ts o o' cs.1 (cc (same, h2)) i
          | inr (idle, done) ↦
              spawn_each-Inv ts (settle (env t.id) (env t.id).result t o) o'
                (All-settle o i t ts cs.0 idle cs.1) (cc (done, h2))
                (settle-Inv (env t.id) t o (claim env o i t cs.0 idle) i (env t.id).result)
        ]
  ]

-- A turn's attempts to spawn workers keep the invariant.
pub spawn_ready_workers-Inv :
    (now : ℕ) (env : String → Answer) (o o' : Orchestrator)
    → Fresh env o
    → spawn_ready_workers now env o ≡ returns o'
    → Inv o
    → Inv o'
unfolding spawn_ready_workers get_ready_tasks
spawn_ready_workers-Inv now env o o' fresh h i = elim (Bool-cases (is_full o)) [
  | inl full ↦ subst Inv (cc (full, h)) i
  | inr room ↦
      spawn_each-Inv env fresh.apart (sort_by_priority (ready_among now o o.tasks)) o o'
        (sort_by_priority-All (Candidate env o) (ready_among now o o.tasks) (
          ready_among-Candidate now env o i fresh o.tasks
            (HasDistinctKeys-lookup o.tasks i.distinct)))
        (cc (room, h)) i
]
