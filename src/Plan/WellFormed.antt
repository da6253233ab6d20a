-- ===== src/Plan/WellFormed.antt =====
-- What holds of every plan that `parse_plan_dict` of src/tab_conductor/plan_parser.py accepts.
use tab_conductor.Prelude.{
  ℕ, ◌+◌, String, ◌≡◌, refl, ◌⊎◌, false, List, [], ◌∷◌, arith, contains, All, inl, inr,
}
use tab_conductor.Prelude.Int.{pos, ◌≤ℤ◌}
use tab_conductor.Value.{Value, str, dict, Items, nil, cons, Fields}
use tab_conductor.Value.Text.{strip, is_empty, strip_idem}
use tab_conductor.Prelude.Call.{returns, raises}
use tab_conductor.Plan.{
  Error, Task, nonblank, dependencies, validate_task, fields_or, validate_tasks, task_not_mapping,
}

-- a text with no spaces round it that is not empty
pub record IsTrimmed (s : String) : Type 0 where
  pub trimmed : strip s ≡ s
  pub filled : is_empty s ≡ false

nonblank_trimmed : (bad : Error) (v : Value) {s : String} → nonblank bad v ≡ returns s → strip s ≡ s
unfolding nonblank
nonblank_trimmed bad (str t) h = ground (arith, strip_idem t)
nonblank_trimmed bad _ h = cc

nonblank_filled :
    (bad : Error) (v : Value) {s : String} → nonblank bad v ≡ returns s → is_empty s ≡ false
unfolding nonblank
nonblank_filled bad (str t) h = ground arith
nonblank_filled bad _ h = cc

nonblank-IsTrimmed :
    (bad : Error) (v : Value) {s : String} → nonblank bad v ≡ returns s → IsTrimmed s
nonblank-IsTrimmed bad v h = record {
  trimmed = nonblank_trimmed bad v h;
  filled = nonblank_filled bad v h;
}

pub dependencies-IsTrimmed :
    (bad : Error) (vs : Items) (ds : List String)
    → dependencies bad vs ≡ returns ds
    → All IsTrimmed ds
unfolding dependencies
dependencies-IsTrimmed bad nil [] h = tt
dependencies-IsTrimmed bad nil (d ∷ ds) h = cc
dependencies-IsTrimmed bad (cons v vs) [] h = tt
dependencies-IsTrimmed bad (cons v vs) (d ∷ ds) h =
    (nonblank-IsTrimmed bad v (ground arith), dependencies-IsTrimmed bad vs ds (ground arith))

pub record IsValid (t : Task) : Type 0 where
  pub id : IsTrimmed t.id
  pub prompt : IsTrimmed t.prompt
  pub priority : (pos 0 ≤ℤ t.priority) × (t.priority ≤ℤ pos 9)
  pub max_retries : (pos 0 ≤ℤ t.max_retries) × (t.max_retries ≤ℤ pos 10)
  pub depends_on : All IsTrimmed t.depends_on

module _ (raw : Fields) (idx : ℕ) (seen_ids : List String) (t : Task)
    (h : validate_task raw idx seen_ids ≡ returns t) where
  validate_task-fresh : contains t.id seen_ids ≡ false
  unfolding validate_task
  validate_task-fresh = ground arith

  validate_task-IsValid : IsValid t
  unfolding validate_task
  validate_task-IsValid = record {
    id = grind (arith, nonblank_trimmed, nonblank_filled);
    prompt = grind (arith, nonblank_trimmed, nonblank_filled);
    priority = ground arith;
    max_retries = ground arith;
    depends_on = grind (arith, dependencies-IsTrimmed);
  }

fields_cases :
    (bad : Error) (v : Value)
    → ((raw : Fields) × (fields_or bad v ≡ returns raw)) ⊎ (fields_or bad v ≡ raises bad)
unfolding fields_or
fields_cases bad (dict fs) = inl (fs, refl)
fields_cases bad _ = inr refl

-- each id is new: neither in `seen` nor an earlier task's
abbrev pub AreFresh : List String → List Task → Type 0
AreFresh seen [] = Unit
AreFresh seen (t ∷ ts) = (contains t.id seen ≡ false) × AreFresh (t.id ∷ seen) ts

pub validate_tasks-IsValid :
    (idx : ℕ) (seen : List String) (vs : Items) (ts : List Task)
    → validate_tasks idx seen vs ≡ returns ts
    → All IsValid ts × AreFresh seen ts
unfolding validate_tasks
validate_tasks-IsValid idx seen nil [] h = (tt, tt)
validate_tasks-IsValid idx seen nil (t ∷ ts) h = cc
validate_tasks-IsValid idx seen (cons v vs) [] h = (tt, tt)
validate_tasks-IsValid idx seen (cons v vs) (t ∷ ts) h =
    let (raw, e) = first in
    let (valid, fresh) = validate_tasks-IsValid (idx + 1) (t.id ∷ seen) vs ts (ground arith) in
    ((validate_task-IsValid raw idx seen t e, valid), (validate_task-fresh raw idx seen t e, fresh))
  where
    first : (raw : Fields) × (validate_task raw idx seen ≡ returns t)
    first = elim (fields_cases (task_not_mapping idx) v) [
      | inl (raw, e) ↦ (raw, ground (arith, e))
      | inr e ↦ cc (e, h)
    ]
