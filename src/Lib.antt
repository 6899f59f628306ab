-- ===== src/Lib.antt =====
-- A model of the crypto arbitrage engine, and what holds of it.
--
-- The engine keeps order books of many venues, looks for price differences on a snapshot of them,
-- and hands what it finds to the router, which reserves balances, and to the executor, which asks
-- the risk manager, sizes the trade on current depth, checks the profit again and trades on paper
-- or live. A half-filled live trade goes to the reconciler. The dashboard watches and steers.
--
-- Which file models what:
--   Core/Types.antt         core/types.py, and Leg and Opportunity of strategies/base.py
--   Core/Route.antt         the keys by which main.py and the cycle strategies compare trades
--   Core/Book/              core/book.py: BookState, OrderBook, BookStore (Defs, Store); books and
--                           stores under the messages of a feed (Refines, Delivery)
--   Core/Graph/             core/graph.py: CurrencyGraph, find_cycles (Defs) and
--                           bellman_ford_negative_cycle (Relax)
--   Core/Market/            core/market_state.py: MarketState.matrix_for_symbol
--   Strategies/Pairs/       strategies/cross_exchange.py and strategies/latency_arb.py
--   Strategies/Spot/        strategies/maker_rebate.py, cross_quote.py, stablecoin_depeg.py and
--                           wrapped_asset.py
--   Strategies/Futures/     strategies/perp_perp.py, funding_rate.py, basis_carry.py and
--                           calendar_spread.py
--   Strategies/Pools/       strategies/dex_dex.py (Amm: the pool arithmetic) and cex_dex.py
--   Strategies/Cycles/      strategies/triangular.py and multi_leg.py
--   Strategies/Shared.antt  fees, freshness and legs, which every strategy takes alike
--   Config/Universe.antt    config/universe.py: tiers, tradeable pairs, the poll budget
--   Config/Venues.antt      config/venues.py: fees, minimums, transfer status
--   Risk/                   risk/limits.py and risk/manager.py (Defs: counters, gate, deployed
--                           capital; Sizing: size_with_depth_check, reverify_profitability)
--   Execution/Inventory/    execution/inventory.py
--   Execution/Router/       execution/router.py
--   Execution/Reconciler/   execution/reconciler.py
--   Execution/Executor/     execution/executor.py
--   Engine/                 main.py: is_fillable, is_rebalanceable, dedupe_by_route (Filters) and
--                           the loop of run, with core/control.py (Screen, Tick)
--   Analytics/Metrics.antt  analytics/metrics.py: counters and the latency window
--   Analytics/Recorder.antt analytics/recorder.py: the buffers, the windows and the flushes
--   Dashboard/              dashboard/auth.py and Broadcaster of dashboard/state.py
--   Prelude/, Float/        dicts, sorting, texts, and Python's float
--   Tests/                  runs and applications of the theorems at concrete inputs
--
-- How the state is modelled. An object is a record, and a method that changes it is a function from
-- the record to the record, with what the method returns beside it. A dict is an association list in
-- the order of insertion. A book that several owners hold stands in the store under its key, and is
-- changed there. The time, the day, random tickets and what venues and other tasks do are arguments.
-- Exceptions of orders are values. The awaits of one `handle` are a change of the risk manager by
-- other tasks, an argument, between firing the orders and recording the result.
--
-- Floats are an interface with three groups of laws (Float/Laws.antt): comparison and signs, which
-- hold of IEEE doubles, and exact sums, which hold where nothing is rounded and are asked for only
-- where amounts are added and taken apart again. Theorems name the groups that they need. Whole
-- numbers meet all three, with division cut off, and serve for the runs.
--
-- Loops go through lists, and the search for cycles goes down with the hops that are left, at most
-- `max_length`. One loop runs on fuel: `collect`, the `while True` of bellman_ford_negative_cycle, is
-- given as many turns as the graph has assets, and an outcome `unfinished` for when they are not
-- enough; Core/Graph/Ends.antt is about that outcome.
--
-- Not modelled: feeds, REST clients, the web server, the parquet files, timers, logging, texts in
-- `detail`, in plans and in reports, the percentiles of metrics, strategies/statistical.py, whose
-- regressions are numpy's, and what main.py does besides: start-up, seeding of balances, the merge of
-- scans.
pub mod Prelude
pub mod Float
pub mod Config
pub mod Risk
pub mod Analytics
pub mod Execution
pub mod Core
pub mod Strategies
pub mod Dashboard
pub mod Engine
mod Tests
