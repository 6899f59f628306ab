-- ===== src/Risk/Manager/Defs.antt =====
-- The counters, the gate, and the capital that is deployed.
use crypto_arb_engine.Prelude.{
  ℕ, ◌+◌, Bool, true, false, Option, none, some, List, [], ◌∷◌, String, if◌then◌else◌, leb, ◌==◌,
  not, all,
}
use crypto_arb_engine.Prelude.Dict.{Dict, string_key, get, set}
use crypto_arb_engine.Float.{Float, ◌⊕◌, ◌⊖◌, ◌<?◌, ◌≤?◌, nought, max, abs}
use crypto_arb_engine.Core.Types.{Leg, Opportunity}
use crypto_arb_engine.Risk.Limits.{RiskLimits, strategy_capital_limit, venue_exposure_limit}

pub record RiskManager (F : Type 0) : Type 0 where
  pub limits : RiskLimits F
  pub current_day : ℕ
  pub daily_pnl_usd : F
  pub daily_trade_count : ℕ
  pub consecutive_failures : ℕ
  pub strategy_deployed_usd : Dict String F
  pub venue_deployed_usd : Dict String F

module _ {F : Type 0} ⦃f : Float F⦄ where
  -- `RiskManager(limits)` on the day `today`.
  abbrev pub new_manager : RiskLimits F → ℕ → RiskManager F
  new_manager limits today = record {
    limits = limits;
    current_day = today;
    daily_pnl_usd = nought;
    daily_trade_count = 0;
    consecutive_failures = 0;
    strategy_deployed_usd = [];
    venue_deployed_usd = [];
  }

  unfoldable pub roll_day_if_needed : ℕ → RiskManager F → RiskManager F
  roll_day_if_needed today rm = if today == rm.current_day then rm else record rm {
    current_day = today;
    daily_pnl_usd = nought;
    daily_trade_count = 0;
    strategy_deployed_usd = [];
    venue_deployed_usd = [];
  }

  -- The circuit breakers.
  unfoldable pub halted : RiskManager F → Bool
  halted rm =
      if rm.limits.emergency_stop
      then true
      else (if rm.daily_pnl_usd ≤? f.neg (abs rm.limits.daily_loss_limit_usd)
          then true
          else (if leb rm.limits.max_trades_per_day rm.daily_trade_count
              then true
              else leb rm.limits.max_consecutive_failures rm.consecutive_failures))

  -- One leg's venue has room for the opportunity.
  unfoldable pub leg_fits : RiskManager F → Opportunity F → Leg F → Bool
  leg_fits rm o leg = not (
      venue_exposure_limit rm.limits leg.venue_id
      <? get nought leg.venue_id rm.venue_deployed_usd ⊕ o.max_size_usd)

  unfoldable pub strategy_fits : RiskManager F → Opportunity F → Bool
  strategy_fits rm o = not (
      strategy_capital_limit rm.limits o.strategy
      <? get nought o.strategy rm.strategy_deployed_usd ⊕ o.max_size_usd)

  -- `can_trade`: the manager after the day was rolled, and the answer.
  unfoldable pub can_trade : ℕ → Option (Opportunity F) → RiskManager F → RiskManager F × Bool
  unfolding halted leg_fits strategy_fits
  can_trade today opportunity manager =
      let rm = roll_day_if_needed today manager in
      (
        rm,
        if halted rm then false else (elim opportunity [
          | none ↦ true
          | some o ↦ if strategy_fits rm o then all (leg_fits rm o) o.legs else false
        ]),
      )

  -- The loops over the legs' venues.
  unfoldable pub deploy : F → List (Leg F) → Dict String F → Dict String F
  deploy amount [] d = d
  deploy amount (leg ∷ legs) d =
      deploy amount legs (set leg.venue_id (get nought leg.venue_id d ⊕ amount) d)

  unfoldable pub undeploy : F → List (Leg F) → Dict String F → Dict String F
  undeploy amount [] d = d
  undeploy amount (leg ∷ legs) d =
      undeploy amount legs (set leg.venue_id (max nought (get nought leg.venue_id d ⊖ amount)) d)

  unfoldable pub commit : Opportunity F → RiskManager F → RiskManager F
  unfolding deploy
  commit o rm = record rm {
    strategy_deployed_usd =
        set o.strategy (get nought o.strategy rm.strategy_deployed_usd ⊕ o.max_size_usd)
          rm.strategy_deployed_usd;
    venue_deployed_usd = deploy o.max_size_usd o.legs rm.venue_deployed_usd;
  }

  -- `_release`
  unfoldable pub release : Opportunity F → RiskManager F → RiskManager F
  unfolding undeploy
  release o rm = record rm {
    strategy_deployed_usd =
        set o.strategy
          (max nought (get nought o.strategy rm.strategy_deployed_usd ⊖ o.max_size_usd))
          rm.strategy_deployed_usd;
    venue_deployed_usd = undeploy o.max_size_usd o.legs rm.venue_deployed_usd;
  }

  unfoldable pub release_uncommitted : Opportunity F → RiskManager F → RiskManager F
  release_uncommitted = release

  -- The counters of `record_result`.
  unfoldable pub record_counters : F → Bool → RiskManager F → RiskManager F
  record_counters pnl_usd success rm = record rm {
    daily_pnl_usd = rm.daily_pnl_usd ⊕ pnl_usd;
    daily_trade_count = rm.daily_trade_count + 1;
    consecutive_failures = if success then 0 else rm.consecutive_failures + 1;
  }

  unfoldable pub record_result : ℕ → Opportunity F → F → Bool → RiskManager F → RiskManager F
  unfolding record_counters
  record_result today o pnl_usd success rm =
      release o (record_counters pnl_usd success (roll_day_if_needed today rm))

  unfoldable pub trigger_emergency_stop : RiskManager F → RiskManager F
  trigger_emergency_stop rm = record rm { limits = record (rm.limits) { emergency_stop = true } }

  unfoldable pub clear_emergency_stop : RiskManager F → RiskManager F
  clear_emergency_stop rm = record rm { limits = record (rm.limits) { emergency_stop = false } }
