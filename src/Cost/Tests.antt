-- ===== src/Cost/Tests.antt =====
-- Runs of the cost guard on amounts in whole micro-dollars, and instances of the theorems about it.
use tab_conductor.Prelude.{ℕ, ◌+◌, ◌*◌, ◌/◌, ◌≡◌, refl, ◌≢◌, none, some, [], ◌∷◌, arith, ltb, leb}
use tab_conductor.Prelude.Int.{pos}
use tab_conductor.Dict.{lookup, insert}
use tab_conductor.Cost.Usd.{Money, MoneyLaws}
use tab_conductor.Prelude.Call.{returns}
use tab_conductor.Cost.{
  CostGuard, over_per_worker, new, add_usage, check, charge, record_usage, classify, total_usd,
  stats_of,
}
use tab_conductor.Cost.Totals.{Counted, add_usage-Counted}
use tab_conductor.Cost.Overrun.{Reach, here, next, usage, Reach-marked, add_usage-over_since}

abbrev pub micro : Money
micro = record {
  Amount = ℕ;
  zero_usd = 0;
  add = λ a b. a + b;
  lt_usd = ltb;
  le_usd = leb;
  warn_level = λ limit. limit * 4 / 5;
  estimate = λ i o. i * 3 + o * 15;
}

pub micro_laws : MoneyLaws micro
micro_laws = record {
  le_refl = λ a. ground arith;
  le_trans = λ a b c h k. ground arith;
  lt_of_lt_of_le = λ a b c h k. ground arith;
  not_lt_of_le = λ a b h. ground arith;
  le_of_not_le = λ a b h. ground arith;
  add_mono = λ a b c d h k. ground arith;
  le-add = λ a c h. ground arith;
}

-- a budget of one dollar per worker, and w1 after two batches
abbrev fresh : CostGuard micro
fresh = record { per_worker_usd = 1_000_000; global_usd = 5_000_000; workers = [] }

abbrev once : CostGuard micro
once = record fresh {
  workers =
      ("w1", record { tokens_in = 100_000; tokens_out = 10_000; usd = 450_000; over_since = none })
      ∷ [];
}

abbrev twice : CostGuard micro
twice = record fresh {
  workers =
      (
        "w1",
        record { tokens_in = 100_001; tokens_out = 10_002; usd = 1_050_000; over_since = some 7 },
      )
      ∷ [];
}

runs : Unit {0}
unfolding new add_usage record_usage charge check classify total_usd lookup insert
runs = tt

new-fresh : new micro 1_000_000 5_000_000 ≡ returns fresh
unfolding runs
new-fresh = refl

usage-once : add_usage micro fresh 3 "w1" (pos 100_000) (pos 10_000) none ≡ returns once
unfolding runs
usage-once = refl

usage-twice : add_usage micro once 7 "w1" (pos 1) (pos 2) (some 600_000) ≡ returns twice
unfolding runs
usage-twice = refl

check-twice : check micro twice "w1" ≡ over_per_worker
unfolding runs
check-twice = refl

add_usage-Counted_example : Counted micro once twice "w1" (pos 1) (pos 2)
add_usage-Counted_example =
    add_usage-Counted micro once twice 7 "w1" (pos 1) (pos 2) (some 600_000) usage-twice

abbrev path : Reach micro fresh twice
path =
    next (next here (usage 3 "w1" (pos 100_000) (pos 10_000) none usage-once))
      (usage 7 "w1" (pos 1) (pos 2) (some 600_000) usage-twice)

Reach-marked_example : (stats_of micro twice "w1").over_since ≢ none
unfolding runs
Reach-marked_example =
    Reach-marked micro micro_laws 1_000_000 5_000_000 fresh twice "w1" new-fresh path refl

add_usage-over_since_example : (stats_of micro twice "w1").over_since ≡ some 7
unfolding runs
add_usage-over_since_example =
    add_usage-over_since micro twice twice 9 "w1" "w1" (pos 0) (pos 0) (some 0) 7 refl refl
