-- ===== src/Orchestrator/Ready.antt =====
-- `_get_ready_tasks`, the order in which `_spawn_ready_workers` takes them, and `_all_tasks_terminal`.
use tab_conductor.Prelude.{
  ℕ, String, Bool, true, false, not, ◌&&◌, List, [], ◌∷◌, leb, contains, all, if◌then◌else◌,
}
use tab_conductor.Prelude.Int.{leb_ℤ}
use tab_conductor.Dict.{Dict, has}
use tab_conductor.Orchestrator.State.{TaskStatus, TaskRecord, Orchestrator}

unfoldable pub is_pending : TaskStatus → Bool
is_pending TaskStatus.pending = true
is_pending _ = false

unfoldable pub is_done : TaskStatus → Bool
is_done TaskStatus.done = true
is_done _ = false

-- in _TERMINAL_TASK_STATUSES
unfoldable pub is_terminal : TaskStatus → Bool
is_terminal TaskStatus.done = true
is_terminal TaskStatus.terminal = true
is_terminal _ = false

-- {t.id for t in self._tasks.values() if t.status == "done"}
unfoldable pub done_ids : Dict TaskRecord → List String
done_ids [] = []
done_ids ((k, t) ∷ d) = let rest = done_ids d in if is_done t.status then t.id ∷ rest else rest

unfoldable pub is_ready : ℕ → Orchestrator → TaskRecord → Bool
is_ready now o t =
    is_pending t.status
    && not (has t.id o.task_worker_map)
    && all (λ dep. contains dep (done_ids o.tasks)) t.depends_on
    && leb t.retry_at now

unfoldable pub ready_among : ℕ → Orchestrator → Dict TaskRecord → List TaskRecord
ready_among now o [] = []
ready_among now o ((k, t) ∷ d) =
    let rest = ready_among now o d in if is_ready now o t then t ∷ rest else rest

unfoldable pub get_ready_tasks : ℕ → Orchestrator → List TaskRecord
get_ready_tasks now o = ready_among now o o.tasks

-- ready.sort(key=lambda t: -t.priority): stable, the highest priority first
unfoldable pub insert_by_priority : TaskRecord → List TaskRecord → List TaskRecord
insert_by_priority t [] = t ∷ []
insert_by_priority t (u ∷ us) =
    if leb_ℤ u.priority t.priority then t ∷ u ∷ us else u ∷ insert_by_priority t us

unfoldable pub sort_by_priority : List TaskRecord → List TaskRecord
unfolding insert_by_priority
sort_by_priority [] = []
sort_by_priority (t ∷ ts) = insert_by_priority t (sort_by_priority ts)

unfoldable pub all_terminal : Dict TaskRecord → Bool
all_terminal [] = true
all_terminal ((k, t) ∷ d) = is_terminal t.status && all_terminal d

unfoldable pub all_done : Dict TaskRecord → Bool
all_done [] = true
all_done ((k, t) ∷ d) = is_done t.status && all_done d
