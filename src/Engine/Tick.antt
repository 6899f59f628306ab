-- ===== src/Engine/Tick.antt =====
-- main.py, the execution part of `run`: the loop over the selected opportunities. The router, the
-- executor and the loop share one metrics registry, which stands in the executor. Each opportunity
-- meets its own world, by its place in the loop.
pub mod Balances
pub mod Unlocked
use crypto_arb_engine.Prelude.{
  ℕ, zero, suc, Bool, true, false, Option, none, some, List, [], ◌∷◌, length, ltb, if◌then◌else◌,
  or_default,
}
use crypto_arb_engine.Float.{Float, nought}
use crypto_arb_engine.Core.Types.{Mode, Opportunity}
use crypto_arb_engine.Analytics.Metrics.{Metrics, record_pnl}
use crypto_arb_engine.Execution.Inventory.{Inventory}
use crypto_arb_engine.Execution.Router.{select, settle_fill, release_unfilled}
use crypto_arb_engine.Execution.Executor.{World, Executor, TradeLogEntry, handle}

pub record Engine (F : Type 0) : Type 0 where
  pub executor : Executor F
  pub inventory : Inventory F

module _ {F : Type 0} ⦃f : Float F⦄ where
  -- `executor.trade_log[-1].pnl_usd or 0.0`
  abbrev pub last_pnl : F → List (TradeLogEntry F) → F
  last_pnl acc [] = acc
  last_pnl acc (entry ∷ log) = last_pnl (or_default nought entry.pnl_usd) log

  abbrev pub count_pnl : Opportunity F → F → Option (Metrics F) → Option (Metrics F)
  count_pnl o pnl none = none
  count_pnl o pnl (some m) = some (record_pnl o.strategy pnl m)

  -- One turn of the loop.
  unfoldable pub execute : World F → Opportunity F → Engine F → Engine F
  execute w o e =
      let after = handle w o e.executor in
      if ltb (length e.executor.trade_log) (length after.trade_log)
      then record {
        executor = record after {
          metrics = count_pnl o (last_pnl nought after.trade_log) after.metrics;
        };
        inventory = (settle_fill e.inventory o).0;
      }
      else record { executor = after; inventory = (release_unfilled e.inventory o).0 }

  unfoldable pub execute_all : (ℕ → World F) → ℕ → List (Opportunity F) → Engine F → Engine F
  unfolding execute
  execute_all worlds n [] e = e
  execute_all worlds n (o ∷ os) e = execute_all worlds (suc n) os (execute (worlds n) o e)

  -- The opportunities that are executed, where the mode is not switched during the tick: all in monitor mode, else those that the router selects.
  abbrev pub choose : Mode → List (Opportunity F) → Engine F → Engine F × List (Opportunity F)
  choose Mode.monitor os e = (e, os)
  choose mode os e =
      let (inventory, metrics, accepted) = select e.inventory e.executor.metrics os in
      (
        record { executor = record (e.executor) { metrics = metrics }; inventory = inventory },
        accepted,
      )

  -- From the detected opportunities of a tick to the end of the loop.
  unfoldable pub decide : (ℕ → World F) → List (Opportunity F) → Engine F → Engine F
  unfolding execute_all
  decide worlds os e =
      let (chosen, to_execute) = choose e.executor.mode os e in
      execute_all worlds 0 to_execute chosen
