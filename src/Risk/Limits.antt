-- ===== src/Risk/Limits.antt =====
-- risk/limits.py.
use crypto_arb_engine.Prelude.{ℕ, Bool, String}
use crypto_arb_engine.Prelude.Dict.{Dict, string_key, get}

pub record RiskLimits (F : Type 0) : Type 0 where
  pub strategy_capital_usd : Dict String F
  pub default_strategy_capital_usd : F
  pub venue_exposure_usd : Dict String F
  pub default_venue_exposure_usd : F
  pub max_notional_per_trade_usd : F
  pub daily_loss_limit_usd : F
  pub max_trades_per_day : ℕ
  pub max_consecutive_failures : ℕ
  pub emergency_stop : Bool

module _ {F : Type 0} where
  unfoldable pub strategy_capital_limit : RiskLimits F → String → F
  strategy_capital_limit l strategy =
      get l.default_strategy_capital_usd strategy l.strategy_capital_usd

  unfoldable pub venue_exposure_limit : RiskLimits F → String → F
  venue_exposure_limit l venue_id = get l.default_venue_exposure_usd venue_id l.venue_exposure_usd
