-- ===== src/Cost/Totals.antt =====
-- Token accounting of `CostGuard.add_usage` and `summary`.
use tab_conductor.Prelude.{ℕ, ◌+◌, String, ◌≡◌, ◌≢◌, Option, [], ◌∷◌, arith, eq_iff, subst}
use tab_conductor.Prelude.Int.{ℤ, pos, negsuc, pos_part, ◌≤ℤ◌}
use tab_conductor.Dict.{Dict, lookup, insert, lookup-insert}
use tab_conductor.Cost.Usd.{Money}
use tab_conductor.Prelude.Call.{returns}
use tab_conductor.Cost.{
  WorkerStats, CostGuard, or_new, charge, record_usage, add_usage, total_tokens_in,
  total_tokens_out, summary, Summary, cost_of, stats_of,
}

module _ (m : Money) where
  total_tokens_in-insert :
      (k : String) (s : WorkerStats m) (d : Dict (WorkerStats m))
      → total_tokens_in m (insert k s d) + WorkerStats.tokens_in (or_new m (lookup k d))
        ≡ total_tokens_in m d + s.tokens_in
  unfolding total_tokens_in insert lookup
  total_tokens_in-insert k s [] = omega arith
  total_tokens_in-insert k s ((i, t) ∷ d) = ground (arith, total_tokens_in-insert k s d)

  total_tokens_out-insert :
      (k : String) (s : WorkerStats m) (d : Dict (WorkerStats m))
      → total_tokens_out m (insert k s d) + WorkerStats.tokens_out (or_new m (lookup k d))
        ≡ total_tokens_out m d + s.tokens_out
  unfolding total_tokens_out insert lookup
  total_tokens_out-insert k s [] = omega arith
  total_tokens_out-insert k s ((i, t) ∷ d) = ground (arith, total_tokens_out-insert k s d)

  -- what `add_usage` does to the counts that `summary` reports, and to the other workers
  pub record Counted (g g' : CostGuard m) (worker_id : String) (tokens_in tokens_out : ℤ)
      : Type 0 where
    pub in_range : (pos 0 ≤ℤ tokens_in) × (pos 0 ≤ℤ tokens_out)
    pub more_in :
        Summary.tokens_in (summary m g') ≡ Summary.tokens_in (summary m g) + pos_part tokens_in
    pub more_out :
        Summary.tokens_out (summary m g') ≡ Summary.tokens_out (summary m g) + pos_part tokens_out
    pub others : (v : String) → worker_id ≢ v → lookup v g'.workers ≡ lookup v g.workers

  record_usage-Counted :
      (g : CostGuard m) (now : ℕ) (w : String) (i o : ℕ) (cost : Money.Amount m)
      → Counted g (record_usage m g now w i o cost) w (pos i) (pos o)
  unfolding record_usage charge summary
  record_usage-Counted g now w i o cost =
      let s = charge m g.per_worker_usd now i o cost (stats_of m g w) in
      record {
        in_range = omega arith;
        more_in = omega (arith, total_tokens_in-insert w s g.workers);
        more_out = omega (arith, total_tokens_out-insert w s g.workers);
        others = λ v ne. ground (arith, lookup-insert w v s g.workers, eq_iff w v);
      }

-- If `add_usage` returns, both token counts were non-negative, the totals of `summary` grew by
-- exactly these counts, and no other worker's statistics changed.
pub add_usage-Counted :
    (m : Money) (g g' : CostGuard m) (now : ℕ) (w : String) (i o : ℤ)
    (usd : Option (Money.Amount m))
    → add_usage m g now w i o usd ≡ returns g'
    → Counted m g g' w i o
unfolding add_usage
add_usage-Counted m g g' now w (pos i) (pos o) usd h =
    subst (λ (x : CostGuard m). Counted m g x w (pos i) (pos o)) (cc h)
      (record_usage-Counted m g now w i o (cost_of m i o usd))
add_usage-Counted m g g' now w (negsuc i) o usd h = cc
add_usage-Counted m g g' now w (pos i) (negsuc o) usd h = cc
