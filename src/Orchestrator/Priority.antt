-- ===== src/Orchestrator/Priority.antt =====
-- The order in which `_spawn_ready_workers` takes the ready tasks.
use tab_conductor.Prelude.{
  ◌≡◌, refl, true, ◌&&◌, List, [], ◌∷◌, arith, if◌then◌else◌, Bool-cases, inl, inr, All, All-map,
}
use tab_conductor.Prelude.Int.{ℤ, ◌≤ℤ◌, leb_ℤ}
use tab_conductor.Orchestrator.State.{TaskRecord}
use tab_conductor.Orchestrator.Ready.{insert_by_priority, sort_by_priority}
use tab_conductor.Orchestrator.Dispatch.{insert_by_priority-All}

-- the tasks of one priority, in their order
unfoldable pub with_priority : ℤ → List TaskRecord → List TaskRecord
with_priority p [] = []
with_priority p (t ∷ ts) =
    let rest = with_priority p ts in
    if leb_ℤ t.priority p && leb_ℤ p t.priority then t ∷ rest else rest

-- No task stands after one of a lower priority.
abbrev pub IsSorted : List TaskRecord → Type 0
IsSorted [] = Unit
IsSorted (t ∷ ts) = All (λ (u : TaskRecord). u.priority ≤ℤ t.priority) ts × IsSorted ts

le : (u t : TaskRecord) → leb_ℤ u.priority t.priority ≡ true → u.priority ≤ℤ t.priority
le u t h = ground arith

insert_by_priority-IsSorted :
    (t : TaskRecord) (us : List TaskRecord) → IsSorted us → IsSorted (insert_by_priority t us)
unfolding insert_by_priority
insert_by_priority-IsSorted t [] h = (tt, tt)
insert_by_priority-IsSorted t (u ∷ us) h = elim (Bool-cases (leb_ℤ u.priority t.priority)) [
  | inl first ↦
      rw first
        ((ground arith, All-map us (λ (v : TaskRecord) k. omega (arith, k, le u t first)) h.0), h)
  | inr later ↦ rw later (
    insert_by_priority-All (λ (v : TaskRecord). v.priority ≤ℤ u.priority) t us (ground arith) h.0,
    insert_by_priority-IsSorted t us h.1,
  )
]

insert-with_priority :
    (p : ℤ) (t : TaskRecord) (us : List TaskRecord)
    → with_priority p (insert_by_priority t us) ≡ with_priority p (t ∷ us)
unfolding with_priority insert_by_priority
insert-with_priority p t [] = refl
insert-with_priority p t (u ∷ us) = ground (arith, insert-with_priority p t us)

-- The tasks are sorted by descending priority, and those of one priority are the same as before and in
-- the same order.
pub sort_by_priority-IsSorted :
    (ts : List TaskRecord)
    → IsSorted (sort_by_priority ts)
      × ((p : ℤ) → with_priority p (sort_by_priority ts) ≡ with_priority p ts)
unfolding sort_by_priority with_priority
sort_by_priority-IsSorted [] = (tt, λ p. refl)
sort_by_priority-IsSorted (t ∷ ts) =
    let (sorted, same) = sort_by_priority-IsSorted ts in
    (
      insert_by_priority-IsSorted t (sort_by_priority ts) sorted,
      λ p. cc (insert-with_priority p t (sort_by_priority ts), same p),
    )
