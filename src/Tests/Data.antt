-- ===== src/Tests/Data.antt =====
-- Two venues, a coin that costs twice as much on the second, and the objects around it.
use crypto_arb_engine.Prelude.{true, false, none, some, [], ◌∷◌}
use crypto_arb_engine.Prelude.Int.{ℤ, pos}
use crypto_arb_engine.Prelude.Dict.{string_key}
use crypto_arb_engine.Float.Ints.{int_float}
use crypto_arb_engine.Core.Types.{Side, Mode, Leg, Opportunity}
use crypto_arb_engine.Core.Book.{BookStore}
use crypto_arb_engine.Config.Venues.{Venues}
use crypto_arb_engine.Analytics.Metrics.{Metrics}
use crypto_arb_engine.Risk.Limits.{RiskLimits}
use crypto_arb_engine.Risk.Manager.{RiskManager, new_manager}
use crypto_arb_engine.Execution.Executor.{World, Executor, Outcome}

abbrev pub buy_leg : Leg ℤ
buy_leg = record {
  venue_id = "alpha";
  symbol = "BTC/USDT";
  side = Side.buy;
  price = pos 100;
  size = pos 2;
  fee = pos 0;
}

abbrev pub sell_leg : Leg ℤ
sell_leg = record {
  venue_id = "beta";
  symbol = "BTC/USDT";
  side = Side.sell;
  price = pos 200;
  size = pos 2;
  fee = pos 0;
}

abbrev pub spread : Opportunity ℤ
spread = record {
  strategy = "cross_exchange";
  symbol = "BTC/USDT";
  legs = buy_leg ∷ sell_leg ∷ [];
  gross_profit_pct = pos 100;
  net_profit_pct = pos 100;
  max_size_usd = pos 200;
  detected_at = pos 0;
  requires_prefunded_inventory = true;
  is_atomic = false;
  reservations = none;
}

abbrev pub limits : RiskLimits ℤ
limits = record {
  strategy_capital_usd = [];
  venue_exposure_usd = ("beta", pos 300) ∷ [];
  default_strategy_capital_usd = pos 500;
  default_venue_exposure_usd = pos 1000;
  max_notional_per_trade_usd = pos 1000;
  daily_loss_limit_usd = pos 100;
  max_trades_per_day = 10;
  max_consecutive_failures = 2;
  emergency_stop = false;
}

abbrev pub manager : RiskManager ℤ
manager = new_manager limits 7

abbrev pub no_books : BookStore ℤ
no_books = record { books = []; by_symbol = [] }

abbrev pub no_venues : Venues ℤ
no_venues = record {
  cex = [];
  dex = [];
  live_taker = [];
  live_maker = [];
  withdraw_blocked = [];
  deposit_blocked = [];
}

abbrev pub no_metrics : Metrics ℤ
no_metrics = record { latency = []; hits = []; misses = []; pnl_by_strategy = []; rejections = [] }

-- Orders on "alpha" are placed; on "beta" there is no client.
abbrev pub world : World ℤ
world = record {
  today = 8;
  later = 9;
  venues = no_venues;
  has_client = string_key.same "alpha";
  exchange = λ leg size. Outcome.placed;
  meanwhile = λ rm. rm;
}

abbrev pub executor : Mode → Executor ℤ
executor mode = record {
  risk_manager = manager;
  incidents = [];
  book_store = no_books;
  mode = mode;
  metrics = some no_metrics;
  trade_log = [];
}
