-- ===== src/Core/Graph.antt =====
-- core/graph.py: `CurrencyGraph` and its search for profitable cycles.
mod Defs
pub mod Cycles
pub mod Budget
mod Relax
pub mod Walk
pub mod Back
pub mod Shape
pub mod Ends
pub mod Closed
pub use Defs.*
pub use Relax.*
unfoldable pub use Defs.{
  weight, add_edge, edges_from, step, loop, dfs, search, find_cycles, member, capped,
}
unfoldable pub use Relax.{
  relax_edge, relax_edges, relax_node, relax_nodes, relax_rounds, pred_of, walk_back, collect,
  bellman_ford_negative_cycle,
}
