-- ===== src/Cost.antt =====
-- src/tab_conductor/cost_guard.py: `CostGuard`. Amounts of USD are Python floats, which stand here as
-- a parameter `Money`; token counts are exact. Times are readings of time.monotonic() in whole
-- nanoseconds, an argument of what reads the clock. The lock serialises the methods, so each is one
-- step; log events are left out.
pub mod Usd
pub mod Totals
pub mod Severity
pub mod Overrun
pub mod Tests
use tab_conductor.Prelude.{
  ℕ, ◌+◌, ◌*◌, String, Bool, true, false, Option, none, some, List, [], ◌∷◌, ltb, ◌&&◌, ◌||◌,
  if◌then◌else◌,
}
use tab_conductor.Prelude.Int.{ℤ, pos, negsuc}
use tab_conductor.Prelude.Call.{Call, returns, raises}
use tab_conductor.Dict.{Dict, lookup, insert}
use Usd.{Money}

pub data CostStatus : Type 0 where
  good warn over_per_worker over_global : CostStatus

pub data Signal : Type 0 where
  sigint sigterm sigkill : Signal

pub data CostError : Type 0 where
  bad_per_worker bad_global : CostError
  bad_tokens_in bad_tokens_out : ℤ → CostError

module _ (m : Money) where
  open m use {Amount, zero_usd, add, lt_usd, le_usd, warn_level, estimate}

  pub record WorkerStats : Type 0 where
    pub tokens_in : ℕ
    pub tokens_out : ℕ
    pub usd : Amount
    pub over_since : Option ℕ

  pub record CostGuard : Type 0 where
    pub per_worker_usd : Amount
    pub global_usd : Amount
    pub workers : Dict WorkerStats

  -- _WorkerStats()
  abbrev pub no_usage : WorkerStats
  no_usage = record { tokens_in = 0; tokens_out = 0; usd = zero_usd; over_since = none }

  -- CostGuard.__init__
  unfoldable pub new : Amount → Amount → Call CostError CostGuard
  new per_worker_usd global_usd =
      if le_usd per_worker_usd zero_usd
      then raises bad_per_worker
      else if le_usd global_usd zero_usd
      then raises bad_global
      else returns
          (record { per_worker_usd = per_worker_usd; global_usd = global_usd; workers = [] })

  abbrev pub or_new : Option WorkerStats → WorkerStats
  or_new none = no_usage
  or_new (some stats) = stats

  -- self._workers.get(worker_id, _WorkerStats())
  abbrev pub stats_of : CostGuard → String → WorkerStats
  stats_of g worker_id = or_new (lookup worker_id g.workers)

  abbrev pub cost_of : ℕ → ℕ → Option Amount → Amount
  cost_of tokens_in tokens_out none = estimate tokens_in tokens_out
  cost_of tokens_in tokens_out (some usd) = usd

  -- the first moment over budget is kept
  abbrev pub mark_over : Bool → ℕ → Option ℕ → Option ℕ
  mark_over over now none = if over then some now else none
  mark_over over now (some t) = some t

  unfoldable pub charge : Amount → ℕ → ℕ → ℕ → Amount → WorkerStats → WorkerStats
  charge cap now tokens_in tokens_out cost s =
      let usd = add s.usd cost in
      record {
        tokens_in = s.tokens_in + tokens_in;
        tokens_out = s.tokens_out + tokens_out;
        usd = usd;
        over_since = mark_over (lt_usd cap usd) now s.over_since;
      }

  -- `setdefault`, and the updates of the entry in place
  unfoldable pub record_usage : CostGuard → ℕ → String → ℕ → ℕ → Amount → CostGuard
  record_usage g now worker_id tokens_in tokens_out cost = record g {
    workers =
        insert worker_id
          (charge g.per_worker_usd now tokens_in tokens_out cost (stats_of g worker_id)) g.workers;
  }

  unfoldable pub add_usage :
      CostGuard → ℕ → String → ℤ → ℤ → Option Amount → Call CostError CostGuard
  add_usage g now worker_id (negsuc n) tokens_out usd = raises (bad_tokens_in (negsuc n))
  add_usage g now worker_id (pos i) (negsuc n) usd = raises (bad_tokens_out (negsuc n))
  add_usage g now worker_id (pos i) (pos o) usd =
      returns (record_usage g now worker_id i o (cost_of i o usd))

  -- sum(...), from left to right, as Python adds floats up to version 3.11
  unfoldable pub total_usd : Dict WorkerStats → Amount → Amount
  total_usd [] acc = acc
  total_usd ((id, s) ∷ d) acc = total_usd d (add acc s.usd)

  unfoldable pub classify : Amount → Amount → Amount → Amount → CostStatus
  classify worker_usd global_total per_worker_usd global_usd =
      if lt_usd global_usd global_total
      then over_global
      else if lt_usd per_worker_usd worker_usd
      then over_per_worker
      else if le_usd (warn_level per_worker_usd) worker_usd
          || le_usd (warn_level global_usd) global_total
      then warn
      else good

  unfoldable pub check : CostGuard → String → CostStatus
  check g worker_id =
      classify (stats_of g worker_id).usd (total_usd g.workers zero_usd) g.per_worker_usd
        g.global_usd

  pub total_tokens_in : Dict WorkerStats → ℕ
  total_tokens_in [] = 0
  total_tokens_in ((id, s) ∷ d) = s.tokens_in + total_tokens_in d

  pub total_tokens_out : Dict WorkerStats → ℕ
  total_tokens_out [] = 0
  total_tokens_out ((id, s) ∷ d) = s.tokens_out + total_tokens_out d

  pub record Snapshot : Type 0 where
    pub usd : Amount
    pub tokens_in : ℕ
    pub tokens_out : ℕ

  pub snapshots : Dict WorkerStats → Dict Snapshot
  snapshots [] = []
  snapshots ((id, s) ∷ d) =
      (id, record { usd = s.usd; tokens_in = s.tokens_in; tokens_out = s.tokens_out }) ∷ snapshots d

  pub record Summary : Type 0 where
    pub total : Amount
    pub tokens_in : ℕ
    pub tokens_out : ℕ
    pub workers : Dict Snapshot

  pub summary : CostGuard → Summary
  summary g = record {
    total = total_usd g.workers zero_usd;
    tokens_in = total_tokens_in g.workers;
    tokens_out = total_tokens_out g.workers;
    workers = snapshots g.workers;
  }

  abbrev pub reset_if : Option WorkerStats → String → CostGuard → CostGuard
  reset_if none worker_id g = g
  reset_if (some s) worker_id g = record g { workers = insert worker_id no_usage g.workers }

  pub reset : CostGuard → String → CostGuard
  reset g worker_id = reset_if (lookup worker_id g.workers) worker_id g

abbrev pub second : ℕ
second = 1_000_000_000

pub escalation_step : ℕ → Signal
escalation_step since_over =
    if ltb since_over (5 * second)
    then sigint
    else if ltb since_over (10 * second)
    then sigterm
    else sigkill
