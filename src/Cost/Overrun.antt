-- ===== src/Cost/Overrun.antt =====
-- `over_since`, the moment at which a worker first went over its budget.
use tab_conductor.Prelude.{
  ℕ, String, ◌≡◌, ◌≢◌, true, false, Option, none, some, arith, eq_iff, subst,
}
use tab_conductor.Prelude.Int.{ℤ, pos, negsuc}
use tab_conductor.Dict.{lookup, lookup-insert}
use tab_conductor.Cost.Usd.{Money, MoneyLaws}
use tab_conductor.Prelude.Call.{returns}
use tab_conductor.Cost.{
  CostGuard, new, charge, record_usage, add_usage, reset, stats_of, cost_of, no_usage,
}

module _ (m : Money) where
  -- one call of a method that changes the guard, at a time that the clock gives
  pub data Step (g g' : CostGuard m) : Type 0 where
    usage :
        (now : ℕ) (w : String) (i o : ℤ) (usd : Option (Money.Amount m))
        → add_usage m g now w i o usd ≡ returns g'
        → Step g g'
    cleared : (w : String) → reset m g w ≡ g' → Step g g'

  pub data Reach (g : CostGuard m) : CostGuard m → Type 0 where
    here : Reach g g
    next : {h k : CostGuard m} → Reach g h → Step h k → Reach g k

  -- whoever is over the budget has its moment recorded, and a fresh worker is not over it
  pub record IsMarked (g : CostGuard m) : Type 0 where
    pub positive : Money.lt_usd m g.per_worker_usd (Money.zero_usd m) ≡ false
    pub marked :
        (v : String)
        → Money.lt_usd m g.per_worker_usd (stats_of m g v).usd ≡ true
        → (stats_of m g v).over_since ≢ none

  record_usage-IsMarked :
      (g : CostGuard m) (now : ℕ) (w : String) (i o : ℕ) (cost : Money.Amount m)
      → IsMarked g
      → IsMarked (record_usage m g now w i o cost)
  unfolding record_usage charge
  record_usage-IsMarked g now w i o cost k = record {
    positive = k.positive;
    marked = λ v over e. ground (
      arith,
      k.marked v,
      eq_iff w v,
      lookup-insert w v (charge m g.per_worker_usd now i o cost (stats_of m g w)) g.workers,
    );
  }

  reset-IsMarked : (g : CostGuard m) (w : String) → IsMarked g → IsMarked (reset m g w)
  unfolding reset
  reset-IsMarked g w k = record {
    positive = ground (arith, k.positive);
    marked = λ v over e.
        ground
          (arith, k.marked v, k.positive, eq_iff w v, lookup-insert w v (no_usage m) g.workers);
  }

  Step-IsMarked : {g g' : CostGuard m} → Step g g' → IsMarked g → IsMarked g'
  unfolding add_usage
  Step-IsMarked {g} (usage now w (pos i) (pos o) usd h) k =
      subst IsMarked (cc h) (record_usage-IsMarked g now w i o (cost_of m i o usd) k)
  Step-IsMarked (usage now w (negsuc i) o usd h) k = cc h
  Step-IsMarked (usage now w (pos i) (negsuc o) usd h) k = cc h
  Step-IsMarked {g} (cleared w e) k = subst IsMarked e (reset-IsMarked g w k)

  Reach-IsMarked : {g g' : CostGuard m} → IsMarked g → Reach g g' → IsMarked g'
  Reach-IsMarked k here = k
  Reach-IsMarked k (next r st) = Step-IsMarked st (Reach-IsMarked k r)

  -- Python's `per_worker_usd <= 0` refused: the budget is above zero.
  positive_budget :
      (laws : MoneyLaws m) (per_worker : Money.Amount m)
      → Money.le_usd m per_worker (Money.zero_usd m) ≡ false
      → Money.lt_usd m per_worker (Money.zero_usd m) ≡ false
  positive_budget laws p h =
      laws.not_lt_of_le (Money.zero_usd m) p (laws.le_of_not_le p (Money.zero_usd m) h)

  new-IsMarked :
      (laws : MoneyLaws m) (per_worker global : Money.Amount m) {g : CostGuard m}
      → new m per_worker global ≡ returns g
      → IsMarked g
  unfolding new lookup
  new-IsMarked laws per_worker global {g} h = record {
    positive = ground (arith, positive_budget laws per_worker);
    marked = λ v over e. ground (arith, positive_budget laws per_worker);
  }

-- In every guard that `__init__` built and that any calls of `add_usage` and `reset` led to, whatever
-- the times and the reported costs, a worker whose USD total is over the per-worker budget has the
-- moment recorded at which it went over.
pub Reach-marked :
    (m : Money) (laws : MoneyLaws m) (per_worker global : Money.Amount m) (g g' : CostGuard m)
    (v : String)
    → new m per_worker global ≡ returns g
    → Reach m g g'
    → Money.lt_usd m g'.per_worker_usd (stats_of m g' v).usd ≡ true
    → (stats_of m g' v).over_since ≢ none
Reach-marked m laws per_worker global g g' v built r =
    (Reach-IsMarked m (new-IsMarked m laws per_worker global built) r).marked v

-- Once a worker's `over_since` is set, `add_usage` for it or for another worker leaves it as it is.
pub add_usage-over_since :
    (m : Money) (g g' : CostGuard m) (now : ℕ) (w v : String) (i o : ℤ)
    (usd : Option (Money.Amount m)) (t : ℕ)
    → add_usage m g now w i o usd ≡ returns g'
    → (stats_of m g v).over_since ≡ some t
    → (stats_of m g' v).over_since ≡ some t
unfolding add_usage record_usage charge
add_usage-over_since m g g' now w v (pos i) (pos o) usd t h set = ground (
  arith,
  eq_iff w v,
  lookup-insert w v (charge m g.per_worker_usd now i o (cost_of m i o usd) (stats_of m g w))
      g.workers,
)
add_usage-over_since m g g' now w v (negsuc i) o usd t h set = cc
add_usage-over_since m g g' now w v (pos i) (negsuc o) usd t h set = cc
