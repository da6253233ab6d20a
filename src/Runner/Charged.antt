-- ===== src/Runner/Charged.antt =====
-- What a charge does to the tokens that the cost guard has counted for the worker.
use tab_conductor.Prelude.{ℕ, ◌+◌, ◌≡◌, Bool, true, false, Option, none, some, arith, eq_iff, subst}
use tab_conductor.Prelude.Int.{ℤ, pos, negsuc, pos_part}
use tab_conductor.Prelude.Call.{Call, returns, raises, >>=-returns}
use tab_conductor.Dict.{lookup-insert}
use tab_conductor.Cost.Usd.{Money}
use tab_conductor.Cost.{
  CostGuard, CostError, WorkerStats, stats_of, charge, record_usage, add_usage, cost_of,
}
use tab_conductor.Runner.Handle.{bad_cost, World, charge_with, lift_usage}

module _ (w : World) where
  abbrev pub own : CostGuard (World.money w) → WorkerStats (World.money w)
  own g = stats_of (World.money w) g (World.worker_id w)

  -- what `add_usage` does to the worker's own counts
  pub record Charged (i o : ℕ) (g g' : CostGuard (World.money w)) : Type 0 where
    pub more_in : WorkerStats.tokens_in (own g') ≡ WorkerStats.tokens_in (own g) + i
    pub more_out : WorkerStats.tokens_out (own g') ≡ WorkerStats.tokens_out (own g) + o

  add_usage-Charged :
      (g g' : CostGuard (World.money w)) (now : ℕ) (i o : ℤ)
      (usd : Option (Money.Amount (World.money w)))
      → add_usage (World.money w) g now (World.worker_id w) i o usd ≡ returns g'
      → Charged (pos_part i) (pos_part o) g g'
  unfolding add_usage record_usage charge
  add_usage-Charged g g' now (pos i) (pos o) usd h =
      let m = World.money w in
      let id = World.worker_id w in
      let cost = cost_of m i o usd in
      let s = charge m g.per_worker_usd now i o cost (own g) in
      subst (Charged i o g) {x = record_usage m g now id i o cost} {y = g'} (cc h) (record {
        more_in = ground (arith, lookup-insert id id s g.workers, eq_iff id id);
        more_out = ground (arith, lookup-insert id id s g.workers, eq_iff id id);
      })
  add_usage-Charged g g' now (pos i) (negsuc n) usd h = cc h
  add_usage-Charged g g' now (negsuc n) o usd h = cc h

  lift_usage-returns :
      (c : Call CostError (CostGuard (World.money w))) {g : CostGuard (World.money w)}
      → lift_usage c ≡ returns g
      → c ≡ returns g
  lift_usage-returns (returns g) h = cc h
  lift_usage-returns (raises e) h = cc h

  pub charge_with-Charged :
      (g g' : CostGuard (World.money w)) (now : ℕ) (i o : ℤ) (given : Bool)
      (usd : Option (Money.Amount (World.money w)))
      → charge_with w g now i o given usd ≡ returns g'
      → Charged (pos_part i) (pos_part o) g g'
  charge_with-Charged g g' now i o false usd h =
      add_usage-Charged g g' now i o none (lift_usage-returns _ h)
  charge_with-Charged g g' now i o true (some usd) h =
      add_usage-Charged g g' now i o (some usd) (lift_usage-returns _ h)
  charge_with-Charged g g' now i o true none h =
      let (g1, h1, h2) =
        >>=-returns {A = CostGuard (World.money w)}
          (lift_usage (add_usage (World.money w) g now (World.worker_id w) i o none))
          (λ g. raises bad_cost) h in
      cc h2

  pub kept-Charged : (g : CostGuard (World.money w)) → Charged 0 0 g g
  kept-Charged g = record { more_in = omega arith; more_out = omega arith }
