-- ===== src/Tests/Trading.antt =====
-- The executor and the reconciler at concrete inputs.
use crypto_arb_engine.Prelude.{◌≡◌, refl, ◌⊎◌, true, false, Option, List, [], ◌∷◌, map, Any}
use crypto_arb_engine.Prelude.Int.{ℤ, pos}
use crypto_arb_engine.Prelude.Dict.{lookup}
use crypto_arb_engine.Float.Ints.{int_float, int-IsOrdered, int-IsRounded, int-IsExact}
use crypto_arb_engine.Core.Types.{Mode}
use crypto_arb_engine.Risk.Manager.Deployed.{IsIdle}
use crypto_arb_engine.Execution.Reconciler.{LegResult, check, unwind}
use crypto_arb_engine.Execution.Reconciler.Plans.{check_lem}
use crypto_arb_engine.Execution.Executor.{handle, log_live, execute_leg, fire, no_client}
use crypto_arb_engine.Execution.Executor.Trades.{Traded, handle-Traded}
use crypto_arb_engine.Execution.Executor.Capital.{KeepsDeployed}
use crypto_arb_engine.Execution.Executor.Account.{accounted, handle-accounted}
use crypto_arb_engine.Execution.Executor.Live.{Leaves, log_live_lem, Placed, Raised}
use crypto_arb_engine.Engine.Tick.{Engine, execute_all}
use crypto_arb_engine.Engine.Tick.Balances.{execute_all-IsIdle}
use crypto_arb_engine.Tests.Data.{buy_leg, sell_leg, spread, manager, no_metrics, world, executor}

handle-Traded_example :
    let after = handle world spread (executor Mode.paper) in
    (after.trade_log ≡ []) ⊎ Traded world spread (executor Mode.paper) after
handle-Traded_example = handle-Traded world spread (executor Mode.paper)

world-KeepsDeployed : KeepsDeployed int-IsOrdered int-IsRounded int-IsExact world
world-KeepsDeployed = record { keeps_strategies = λ rm. refl; keeps_venues = λ rm. refl }

manager-IsIdle : IsIdle int-IsOrdered int-IsRounded int-IsExact manager
unfolding lookup
manager-IsIdle = record { strategies_idle = λ s. refl; venues_idle = λ v. refl }

handle-accounted_example : accounted (handle world spread (executor Mode.live)) ≡ 1
unfolding lookup
handle-accounted_example =
    handle-accounted world spread no_metrics (executor Mode.live) (λ e. cc) refl

-- A run: the spread is traded on paper for the two hundred that it brings.
abbrev paper_run : List (Option ℤ)
paper_run = map (λ e. e.pnl_usd) (handle world spread (executor Mode.paper)).trade_log

buy-Placed : Placed world (pos 200) buy_leg
unfolding execute_leg
buy-Placed = refl

sell-Raised : Raised world (pos 200) sell_leg
unfolding execute_leg
sell-Raised = (no_client, refl)

-- The second leg has no client: an incident is opened with both results.
log_live_lem_example :
    let after = log_live world spread (pos 200) (pos 100) (executor Mode.live) in
    Leaves world spread (pos 200) (pos 0) false (executor Mode.live) after
    × (after.incidents ≡ (spread, fire world (pos 200) spread.legs) ∷ [])
log_live_lem_example =
    (log_live_lem world spread (pos 200) (pos 100) (executor Mode.live)).2 (Any.here buy-Placed)
      (Any.there (Any.here sell-Raised))

abbrev filled : LegResult ℤ
filled = record { leg = buy_leg; success = true; error = "" }

abbrev failed : LegResult ℤ
failed = record { leg = sell_leg; success = false; error = "down" }

check_lem_example :
    check [] spread (filled ∷ failed ∷ [])
    ≡ ((spread, filled ∷ failed ∷ []) ∷ [], unwind filled ∷ [])
unfolding unwind
check_lem_example =
    (check_lem [] spread (filled ∷ failed ∷ [])).2 (Any.here refl) (Any.there (Any.here refl))

abbrev engine : Engine ℤ
engine = record { executor = executor Mode.live; inventory = [] }

execute_all-IsIdle_example :
    IsIdle int-IsOrdered int-IsRounded int-IsExact
      (execute_all (λ n. world) 0 (spread ∷ spread ∷ []) engine).executor.risk_manager
execute_all-IsIdle_example =
    execute_all-IsIdle int-IsOrdered int-IsRounded int-IsExact (λ n. world) 0 (spread ∷ spread ∷ [])
      engine (λ i. world-KeepsDeployed) (refl, (refl, tt)) manager-IsIdle
