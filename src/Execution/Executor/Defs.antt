-- ===== src/Execution/Executor/Defs.antt =====
-- The executor's methods. What it does not control is in `World`.
use crypto_arb_engine.Prelude.{
  ℕ, Bool, true, false, Option, none, some, List, [], ◌∷◌, ◌++◌, String, all, if◌then◌else◌,
}
use crypto_arb_engine.Float.{Float, ◌⊗◌, ◌⊘◌, ◌≤?◌, ◌==?◌, nought, hundred}
use crypto_arb_engine.Core.Types.{Mode, Leg, Opportunity}
use crypto_arb_engine.Core.Book.{BookStore}
use crypto_arb_engine.Config.Venues.{Venues}
use crypto_arb_engine.Analytics.Metrics.{Metrics, record_rejection}
use crypto_arb_engine.Risk.Manager.{
  RiskManager, can_trade, commit, release_uncommitted, record_result, size_with_depth_check,
  reverify_profitability,
}
use crypto_arb_engine.Execution.Reconciler.{LegResult, Incidents, check}

-- How a venue answers an order: it is placed, or the call raises with this text.
pub data Outcome : Type 0 where
  placed : Outcome
  raised : String → Outcome

-- What the executor meets: the days on which it is called and on which the orders have returned, the
-- venue tables, the connected clients, the answers to orders, and what other tasks do to the risk
-- manager while the orders are under way.
pub record World (F : Type 0) : Type 0 where
  pub today : ℕ
  pub later : ℕ
  pub venues : Venues F
  pub has_client : String → Bool
  pub exchange : Leg F → F → Outcome
  pub meanwhile : RiskManager F → RiskManager F

pub record TradeLogEntry (F : Type 0) : Type 0 where
  pub opportunity : Opportunity F
  pub mode : Mode
  pub pnl_usd : Option F
  pub note : String

pub record Executor (F : Type 0) : Type 0 where
  pub risk_manager : RiskManager F
  pub incidents : Incidents F
  pub book_store : BookStore F
  pub mode : Mode
  pub metrics : Option (Metrics F)
  pub trade_log : List (TradeLogEntry F)

abbrev pub partial_fill : String
partial_fill = "PARTIAL_FILL_RECONCILIATION_REQUIRED"

abbrev pub no_client : String
no_client = "No live execution path configured for venue"

module _ {F : Type 0} where
  abbrev pub paper_entry : Opportunity F → F → TradeLogEntry F
  paper_entry o pnl = record { opportunity = o; mode = Mode.paper; pnl_usd = some pnl; note = "" }

  abbrev pub live_entry : Opportunity F → F → Bool → TradeLogEntry F
  live_entry o pnl all_ok = record {
    opportunity = o;
    mode = Mode.live;
    pnl_usd = if all_ok then some pnl else none;
    note = if all_ok then "" else partial_fill;
  }

  abbrev pub count_reject : String → Option (Metrics F) → Option (Metrics F)
  count_reject reason none = none
  count_reject reason (some m) = some (record_rejection reason m)

  -- `_reject`
  unfoldable pub reject : String → Executor F → Executor F
  reject reason ex = record ex { metrics = count_reject reason ex.metrics }

module _ {F : Type 0} ⦃f : Float F⦄ where
  unfoldable pub estimate_pnl_usd : F → F → F
  estimate_pnl_usd size_usd net_profit_pct = size_usd ⊗ (net_profit_pct ⊘ hundred)

  -- `_execute_leg`, with the exception as a value.
  unfoldable pub execute_leg : World F → F → Leg F → Outcome
  execute_leg w size_usd leg =
      let size = if leg.price ==? nought then nought else size_usd ⊘ leg.price in
      if w.has_client leg.venue_id then w.exchange leg size else Outcome.raised no_client

  abbrev pub leg_result : Leg F → Outcome → LegResult F
  leg_result leg Outcome.placed = record { leg = leg; success = true; error = "" }
  leg_result leg (Outcome.raised error) = record { leg = leg; success = false; error = error }

  -- `asyncio.gather` over the legs: every leg is tried, and the results are in the legs' order.
  unfoldable pub fire : World F → F → List (Leg F) → List (LegResult F)
  unfolding execute_leg
  fire w size_usd [] = []
  fire w size_usd (leg ∷ legs) = leg_result leg (execute_leg w size_usd leg) ∷ fire w size_usd legs

  unfoldable pub log_paper : World F → Opportunity F → F → F → Executor F → Executor F
  unfolding estimate_pnl_usd
  log_paper w o size_usd net_profit_pct ex =
      let pnl = estimate_pnl_usd size_usd net_profit_pct in
      record ex {
        risk_manager = record_result w.today o pnl true ex.risk_manager;
        trade_log = ex.trade_log ++ (paper_entry o pnl ∷ []);
      }

  unfoldable pub log_live : World F → Opportunity F → F → F → Executor F → Executor F
  unfolding estimate_pnl_usd fire
  log_live w o size_usd net_profit_pct ex =
      let results = fire w size_usd o.legs in
      let all_ok = all (λ r. r.success) results in
      let pnl = if all_ok then estimate_pnl_usd size_usd net_profit_pct else nought in
      record ex {
        risk_manager = record_result w.later o pnl all_ok (w.meanwhile ex.risk_manager);
        incidents = (check ex.incidents o results).0;
        trade_log = ex.trade_log ++ (live_entry o pnl all_ok ∷ []);
      }

  -- The part that `_handle_paper` and `_handle_live` share: sizing and the check of profitability,
  -- then the trade, with the answer whether there was one.
  unfoldable pub with_size :
      World F → Opportunity F → (F → F → Executor F → Executor F) → Executor F → Executor F × Bool
  with_size w o trade ex =
      let size_usd = size_with_depth_check w.venues ex.risk_manager o ex.book_store (f.lit 1 1) in
      let (still_profitable, net_profit_pct) = reverify_profitability o ex.book_store size_usd in
      if size_usd ≤? nought
      then (reject "below_venue_minimum_or_slippage" ex, false)
      else (if still_profitable
          then (trade size_usd net_profit_pct ex, true)
          else (reject "edge_gone_before_execution" ex, false))

  unfoldable pub handle_paper : World F → Opportunity F → Executor F → Executor F × Bool
  unfolding with_size log_paper
  handle_paper w o = with_size w o (log_paper w o)

  unfoldable pub handle_live : World F → Opportunity F → Executor F → Executor F × Bool
  unfolding with_size log_live
  handle_live w o = with_size w o (log_live w o)

  abbrev pub on_manager : (RiskManager F → RiskManager F) → Executor F → Executor F
  on_manager g ex = record ex { risk_manager = g ex.risk_manager }

  -- The `try`/`finally` of `handle`.
  unfoldable pub finally_release : Opportunity F → Executor F × Bool → Executor F
  finally_release o (ex, traded) = if traded then ex else on_manager (release_uncommitted o) ex

  unfoldable pub dispatch : World F → Opportunity F → Mode → Executor F → Executor F
  unfolding handle_paper handle_live finally_release
  dispatch w o Mode.monitor ex = ex
  dispatch w o Mode.paper ex = finally_release o (handle_paper w o (on_manager (commit o) ex))
  dispatch w o Mode.live ex = finally_release o (handle_live w o (on_manager (commit o) ex))

  unfoldable pub handle : World F → Opportunity F → Executor F → Executor F
  unfolding dispatch
  handle w o ex =
      let (manager, allowed) = can_trade w.today (some o) ex.risk_manager in
      let checked = record ex { risk_manager = manager } in
      if allowed then dispatch w o ex.mode checked else reject "risk_limits" checked
