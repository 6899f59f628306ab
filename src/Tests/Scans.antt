-- ===== src/Tests/Scans.antt =====
-- The scans at concrete inputs.
use crypto_arb_engine.Prelude.{
  ℕ, length, ◌≡◌, refl, true, none, List, [], ◌∷◌, map, String, All, Any,
}
use crypto_arb_engine.Prelude.Dict.{string_key, pair_key, lookup}
use crypto_arb_engine.Prelude.Int.{ℤ, pos, ◌-ℤ◌, ◌*ℤ◌, ◌+ℤ◌}
use crypto_arb_engine.Float.{abs}
use crypto_arb_engine.Float.Ints.{int_float, int_key, int-IsOrdered, ◌/ℤ◌}
use crypto_arb_engine.Core.Types.{Mode}
use crypto_arb_engine.Core.Book.{
  OrderBook, BookStore, find_book, venues_for_symbol, best_bid, best_ask, age_sec,
}
use crypto_arb_engine.Core.Book.Index.{IsIndexed}
use crypto_arb_engine.Core.Book.Refines.{Message}
use crypto_arb_engine.Core.Book.Delivery.{Delivery, deliver_all, empty_store, deliver_all-IsIndexed}
use crypto_arb_engine.Core.Graph.{member}
use crypto_arb_engine.Core.Market.{MarketState, PoolState, matrix_for_symbol}
use crypto_arb_engine.Core.Market.Rows.{IsTopOf, matrix_for_symbol_lem}
use crypto_arb_engine.Strategies.Shared.{is_stale}
use crypto_arb_engine.Strategies.Spot.Groups.{Distinct, venues_for_symbol-Distinct}
use crypto_arb_engine.Execution.Executor.{handle}
use crypto_arb_engine.Strategies.Pairs.{Settings}
use crypto_arb_engine.Strategies.Spot.CrossQuote.{cross_quote_scan}
use crypto_arb_engine.Strategies.Spot.Swaps.{IsSwap, cross_quote_scan-IsSwap}
use crypto_arb_engine.Strategies.Spot.StablecoinDepeg.{DepegSettings, depeg_scan}
use crypto_arb_engine.Strategies.Spot.Pegs.{IsPegTrade, depeg_scan-InBand}
use crypto_arb_engine.Strategies.Spot.KillSwitch.{IsOffPeg, depeg_scan-Triggers}
use crypto_arb_engine.Strategies.Cycles.{CycleSettings}
use crypto_arb_engine.Strategies.Cycles.Triangular.{triangular_scan}
use crypto_arb_engine.Strategies.Cycles.MultiLeg.{multi_leg_scan}
use crypto_arb_engine.Strategies.Cycles.Unsized.{cycles_untraded}
use crypto_arb_engine.Tests.Data.{no_venues, world, executor}

abbrev listing : String → ℤ → ℤ → Delivery ℤ
listing symbol bid ask = record {
  venue_id = "alpha";
  symbol = symbol;
  message = Message.snapshot (pos 1) ((bid, pos 3) ∷ []) ((ask, pos 3) ∷ []);
}

-- A triangle that gains, and a coin that is cheaper in USDC than in USDT.
abbrev books : BookStore ℤ
books =
    deliver_all
      (listing "BTC/USDT" (pos 1) (pos 1)
        ∷ listing "ETH/BTC" (pos 1) (pos 1)
        ∷ listing "ETH/USDT" (pos 5) (pos 6)
        ∷ listing "ETH/USDC" (pos 1) (pos 2)
        ∷ [])
      empty_store

abbrev pool : PoolState ℤ
pool = record {
  dex_id = "swap";
  chain = "mainnet";
  symbol = "USDC/USDT";
  reserve_base = pos 10;
  reserve_quote = pos 20;
  fee = pos 0;
  timestamp = pos 1;
  tick_liquidity = none;
  sqrt_price_x96 = none;
}

abbrev market : MarketState ℤ
market = record {
  book_store = books;
  symbols = "BTC/USDT" ∷ "ETH/BTC" ∷ "ETH/USDT" ∷ "ETH/USDC" ∷ [];
  taken_at = pos 1;
  funding_rates = [];
  futures_quotes = [];
  dex_pools = ("swap", pool) ∷ [];
  gas_price_usd = [];
  staleness_sec = pos 10;
  matrix_cache = [];
}

abbrev settings : Settings ℤ
settings = record { min_profit_pct = pos 1; max_trade_usd = pos 500; min_lag_sec = pos 0 }

abbrev pegs : DepegSettings ℤ
pegs = record { min_profit_pct = pos 1; kill_switch_pct = pos 3; max_trade_usd = pos 500 }

abbrev book : String → ℤ → ℤ → (String × String) × OrderBook ℤ
book symbol bid ask = (
  ("alpha", symbol),
  record {
    venue_id = "alpha";
    symbol = symbol;
    state = record { bids = (bid, pos 3) ∷ []; asks = (ask, pos 3) ∷ []; timestamp = pos 1 };
  },
)

-- A coin that is cheaper in USDC than in USDT, and a stablecoin at twice its peg.
abbrev quotes : BookStore ℤ
quotes = record {
  books =
      book "ETH/USDT" (pos 5) (pos 6)
      ∷ book "ETH/USDC" (pos 1) (pos 2)
      ∷ book "USDC/USDT" (pos 2) (pos 2)
      ∷ [];
  by_symbol =
      ("ETH/USDT", ("alpha", "ETH/USDT") ∷ [])
      ∷ ("ETH/USDC", ("alpha", "ETH/USDC") ∷ [])
      ∷ ("USDC/USDT", ("alpha", "USDC/USDT") ∷ [])
      ∷ [];
}

abbrev quoted : MarketState ℤ
quoted = record market { book_store = quotes; symbols = "ETH/USDT" ∷ "ETH/USDC" ∷ "USDC/USDT" ∷ [] }

same_texts : (a b : String) → a ≡ b → string_key.same a b ≡ true
same_texts a b = (string_key.same_iff a b).1

quoted-Distinct : Distinct quoted.symbols
quoted-Distinct = (
  λ a. elim a [
    | Any.here e ↦ cc (same_texts "ETH/USDC" "ETH/USDT" e)
    | Any.there b ↦ elim b [
      | Any.here e ↦ cc (same_texts "USDC/USDT" "ETH/USDT" e)
      | Any.there c ↦ elim c [ ]
    ]
  ],
  (
    λ a. elim a [
      | Any.here e ↦ cc (same_texts "USDC/USDT" "ETH/USDC" e)
      | Any.there b ↦ elim b [ ]
    ],
    (λ a. elim a [ ], tt),
  ),
)

no_other : (v : String) → ¬ Any (λ y. y ≡ v) []
no_other v a = elim a [ ]

quoted-venues : (s : String) → Distinct (venues_for_symbol quoted.book_store s)
unfolding lookup
quoted-venues =
    venues_for_symbol-Distinct quotes ((no_other _, tt), ((no_other _, tt), ((no_other _, tt), tt)))

cross_quote_scan-IsSwap_example :
    All
      (IsSwap settings no_venues (pos 1) quoted)
      (cross_quote_scan settings no_venues (pos 1) quoted)
cross_quote_scan-IsSwap_example =
    cross_quote_scan-IsSwap settings no_venues (pos 1) quoted quoted-Distinct quoted-venues

abbrev loose_pegs : DepegSettings ℤ
loose_pegs = record { min_profit_pct = pos 1; kill_switch_pct = pos 300; max_trade_usd = pos 500 }

-- How many trades the scans find.
abbrev trades_found : ℕ × ℕ
trades_found = (
  length (cross_quote_scan settings no_venues (pos 1) quoted),
  length (depeg_scan loose_pegs no_venues (pos 1) quoted).found,
)

depeg_scan-InBand_example :
    All
      (IsPegTrade loose_pegs (pos 1) quoted)
      (depeg_scan loose_pegs no_venues (pos 1) quoted).found
depeg_scan-InBand_example = depeg_scan-InBand loose_pegs no_venues (pos 1) quoted

book-IsOffPeg : IsOffPeg pegs no_venues (pos 1) quoted "USDC/USDT"
unfolding abs ◌*ℤ◌ ◌-ℤ◌ ◌/ℤ◌ ◌+ℤ◌ find_book lookup is_stale best_bid best_ask age_sec
book-IsOffPeg =
    IsOffPeg.in_book "alpha" "USDC" "USDT" (Any.there (Any.here refl)) (Any.here refl) refl
      (refl, refl, refl)

depeg_scan-Triggers_example :
    member "USDC/USDT" (depeg_scan pegs no_venues (pos 1) quoted).triggered ≡ true
depeg_scan-Triggers_example =
    depeg_scan-Triggers pegs no_venues (pos 1) quoted "USDC/USDT" book-IsOffPeg

books-IsIndexed : IsIndexed books
unfolding lookup
books-IsIndexed = deliver_all-IsIndexed _ empty_store (record { once = tt; indexed = λ s. refl })

matrix_for_symbol_lem_example :
    let (after, matrix) = matrix_for_symbol (pos 5) "ETH/USDT" market in
    (lookup "ETH/USDT" market.matrix_cache ≡ none
      → All (IsTopOf (pos 5) (pos 10) books "ETH/USDT") matrix)
    × (matrix_for_symbol (pos 9) "ETH/USDT" after ≡ (after, matrix))
matrix_for_symbol_lem_example =
    matrix_for_symbol_lem (pos 5) (pos 9) "ETH/USDT" market books-IsIndexed

-- In place of the logarithm and the exponential.
abbrev ln : ℤ → ℤ
ln x = x -ℤ pos 1

abbrev exp : ℤ → ℤ
exp x = x

abbrev cycle_settings : CycleSettings ℤ
cycle_settings = record { min_profit_pct = pos 1; max_cycle_length = 4; max_trade_usd = pos 500 }

cycles_untraded_example :
    All
      (λ o. (handle world o (executor Mode.live)).trade_log ≡ [])
      (triangular_scan ln exp cycle_settings no_venues (pos 1) market)
    × All
        (λ o. (handle world o (executor Mode.live)).trade_log ≡ [])
        (multi_leg_scan ln exp cycle_settings [] no_venues (pos 1) market)
cycles_untraded_example =
    cycles_untraded ln exp int-IsOrdered cycle_settings [] no_venues (pos 1) market world
      (executor Mode.live)

abbrev found_routes : List String
found_routes = map (λ o. o.symbol) (triangular_scan ln exp cycle_settings no_venues (pos 1) market)

abbrev found_swaps : List String
found_swaps = map (λ o. o.symbol) (cross_quote_scan settings no_venues (pos 1) market)
