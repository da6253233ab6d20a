-- ===== src/Cost/Severity.antt =====
-- The severity that `CostGuard.check` reports, while usage is added.
use tab_conductor.Prelude.{ℕ}
use tab_conductor.Dict.{Dict}
use tab_conductor.Cost.{CostStatus, good, warn, over_per_worker, over_global}

-- `CostStatus` in the order of its declaration, from benign to critical
pub severity : CostStatus → ℕ
severity good = 0
severity warn = 1
severity over_per_worker = 2
severity over_global = 3
