-- ===== src/Tests/Search.antt =====
-- The search for a negative cycle at concrete inputs.
use crypto_arb_engine.Prelude.{◌≡◌, ◌≢◌, refl, [], ◌∷◌, String}
use crypto_arb_engine.Prelude.Dict.{string_key, lookup, set}
use crypto_arb_engine.Prelude.Int.{ℤ, pos, negsuc, ◌+ℤ◌, ◌*ℤ◌, ◌-ℤ◌}
use crypto_arb_engine.Float.Ints.{int_float}
use crypto_arb_engine.Core.Types.{Side}
use crypto_arb_engine.Core.Graph.{
  Edge, Cycle, Graph, Outcome, add_edge, edges_from, pred_of, bellman_ford_negative_cycle,
}
use crypto_arb_engine.Core.Graph.Shape.{IsGraph, add_edge-IsGraph}
use crypto_arb_engine.Core.Graph.Ends.{bellman_ford_ends}
use crypto_arb_engine.Core.Graph.Closed.{IsClosedWalk, bellman_ford_closes}

abbrev ln : ℤ → ℤ
ln x = x

abbrev edge : String → String → ℤ → Edge ℤ
edge src dst rate = record {
  src = src;
  dst = dst;
  rate = rate;
  fee = pos 0;
  venue_id = "alpha";
  symbol = "S";
  side = Side.buy;
}

abbrev triangle : Graph ℤ
triangle =
    add_edge (edge "ETH" "USDT" (pos 1))
      (add_edge (edge "BTC" "ETH" (pos 1)) (add_edge (edge "USDT" "BTC" (pos 1)) []))

empty-IsGraph : IsGraph {F = ℤ} []
unfolding edges_from lookup
empty-IsGraph = record { once = tt; leaves = λ u e m. elim m [ ]; arrives = λ u e m. elim m [ ] }

triangle-IsGraph : IsGraph triangle
triangle-IsGraph = add_edge-IsGraph _ _ (add_edge-IsGraph _ _ (add_edge-IsGraph _ _ empty-IsGraph))

bellman_ford_ends_example : bellman_ford_negative_cycle ln triangle "USDT" ≢ Outcome.unfinished
bellman_ford_ends_example = bellman_ford_ends ln triangle "USDT" triangle-IsGraph

abbrev found : Cycle ℤ
found = record {
  assets = "USDT" ∷ "BTC" ∷ "ETH" ∷ "USDT" ∷ [];
  edges = edge "USDT" "BTC" (pos 1) ∷ edge "BTC" "ETH" (pos 1) ∷ edge "ETH" "USDT" (pos 1) ∷ [];
  total_weight = negsuc 2;
}

triangle_runs : bellman_ford_negative_cycle ln triangle "USDT" ≡ Outcome.cycle found
unfolding bellman_ford_negative_cycle lookup add_edge set ◌+ℤ◌ ◌*ℤ◌ ◌-ℤ◌ pred_of
triangle_runs = refl

bellman_ford_closes_example : IsClosedWalk ln triangle found
bellman_ford_closes_example =
    bellman_ford_closes ln triangle "USDT" found triangle-IsGraph triangle_runs
