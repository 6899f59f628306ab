-- ===== src/Strategies/Pairs/Spreads.antt =====
-- What the two scans report.
use crypto_arb_engine.Prelude.{
  ◌≡◌, ◌≢◌, refl, none, sym, subst, Bool, true, false, List, [], ◌∷◌, String, ◌==◌, ◌&&◌, ltb,
  length, All, All-append, All-imp, Any, Bool-cases, inl, inr, arith,
}
use crypto_arb_engine.Float.{Float, ◌⊕◌, ◌⊖◌, ◌⊗◌, ◌⊘◌, ◌<?◌, ◌≤?◌, nought, hundred, min, IsOrdered}
use crypto_arb_engine.Float.Bounds.{min_not_above_right}
use crypto_arb_engine.Core.Types.{Side, Leg, Opportunity}
use crypto_arb_engine.Core.Market.{SymbolMatrix}
use crypto_arb_engine.Config.Venues.{Venues, taker_fee_for}
use crypto_arb_engine.Strategies.Pairs.Defs.{
  Settings, Place, Detector, number_from, gross_pct, net_pct, cross_exchange_gate, latency_gate,
  trade_usd, spread, candidate, against, grid, scan_symbol, cross_exchange, latency_arb,
}

and_true : {a b : Bool} → a && b ≡ true → (a ≡ true) × (b ≡ true)
and_true {a} {b} h = ground arith

-- The list holds the element.
abbrev Within {ℓ} : {A : Type ℓ} → List A → A → Type ℓ
Within xs x = Any (λ y. y ≡ x) xs

All-Within {ℓ} : {A : Type ℓ} (xs : List A) → All (Within xs) xs
All-Within [] = tt
All-Within (x ∷ xs) = (Any.here refl, All-imp xs (λ y h. Any.there h) (All-Within xs))

module _ {F : Type 0} ⦃f : Float F⦄ (d : Detector F) (t : Venues F) (symbol : String) (now : F)
    (places : List (Place F)) where
  -- The opportunity is built from two of the rows that pass the test and leave a size.
  record IsBuilt (o : Opportunity F) : Type 0 where
    buy : Place F
    sell : Place F
    buy_row : Within places buy
    sell_row : Within places sell
    passes : d.gate t buy sell ≡ true
    sized : trade_usd d.settings buy.1 sell.1 ≤? nought ≡ false
    built : o ≡ spread d.name d.settings t symbol now buy sell

  candidate-IsBuilt :
      (buy sell : Place F)
      → Within places buy
      → Within places sell
      → All IsBuilt (candidate d t symbol now buy sell)
  unfolding candidate
  candidate-IsBuilt buy sell b s = elim (Bool-cases (d.gate t buy sell)) [
    | inr e ↦ rw e tt
    | inl e ↦ rw e (elim (Bool-cases (trade_usd d.settings buy.1 sell.1 ≤? nought)) [
      | inl k ↦ rw k tt
      | inr k ↦ rw k (
        record {
          buy = buy;
          sell = sell;
          buy_row = b;
          sell_row = s;
          passes = e;
          sized = k;
          built = refl;
        },
        tt,
      )
    ])
  ]

  against-IsBuilt :
      (buy : Place F) (sells : List (Place F))
      → Within places buy
      → All (Within places) sells
      → All IsBuilt (against d t symbol now buy sells)
  unfolding against
  against-IsBuilt buy [] b hs = tt
  against-IsBuilt buy (sell ∷ sells) b (h, hs) =
      All-append IsBuilt (candidate d t symbol now buy sell) _ (candidate-IsBuilt buy sell b h)
        (against-IsBuilt buy sells b hs)

  grid-IsBuilt :
      (sells buys : List (Place F))
      → All (Within places) sells
      → All (Within places) buys
      → All IsBuilt (grid d t symbol now sells buys)
  unfolding grid
  grid-IsBuilt sells [] hs bs = tt
  grid-IsBuilt sells (buy ∷ buys) hs (b, bs) =
      All-append IsBuilt (against d t symbol now buy sells) _ (against-IsBuilt buy sells b hs)
        (grid-IsBuilt sells buys hs bs)

scan_symbol-IsBuilt :
    {F : Type 0} ⦃f : Float F⦄ (d : Detector F) (t : Venues F) (symbol : String) (now : F)
    (matrix : SymbolMatrix F)
    → All (IsBuilt d t symbol now (number_from 0 matrix)) (scan_symbol d t symbol now matrix)
unfolding scan_symbol
scan_symbol-IsBuilt d t symbol now matrix =
    let places = number_from 0 matrix in
    elim (Bool-cases (ltb (length matrix) 2)) [
      | inl e ↦ rw e tt
      | inr e ↦
          rw e (
            grid-IsBuilt d t symbol now places places places (All-Within places)
              (All-Within places))
    ]

module _ {F : Type 0} ⦃f : Float F⦄ (cfg : Settings F) (t : Venues F) where
  -- The opportunity buys and sells one quantity of one symbol, at the venues and the prices of two
  -- different rows; its net profit
  -- is the spread of its legs in percent less their fees, and clears the threshold; and its size is
  -- positive and within the limit of a trade.
  pub record IsSpread (buy sell : Place F) (o : Opportunity F) : Type 0 where
    pub buy_leg : Leg F
    pub sell_leg : Leg F
    pub legs : o.legs ≡ buy_leg ∷ sell_leg ∷ []
    pub buys : buy_leg.side ≡ Side.buy
    pub sells : sell_leg.side ≡ Side.sell
    pub two_rows : buy.0 ≢ sell.0
    pub same_symbol : (buy_leg.symbol ≡ o.symbol) × (sell_leg.symbol ≡ o.symbol)
    pub venues : (buy_leg.venue_id ≡ buy.1.venue_id) × (sell_leg.venue_id ≡ sell.1.venue_id)
    pub fees :
        (buy_leg.fee ≡ taker_fee_for t buy.1.venue_id (f.lit 1 3) none)
        × (sell_leg.fee ≡ taker_fee_for t sell.1.venue_id (f.lit 1 3) none)
    pub sized :
        o.max_size_usd
        ≡ min (min buy.1.ask_size sell.1.bid_size ⊗ buy.1.ask_price) cfg.max_trade_usd
    pub units : buy_leg.size ≡ o.max_size_usd ⊘ buy.1.ask_price
    pub same_size : buy_leg.size ≡ sell_leg.size
    pub quoted : (buy_leg.price ≡ buy.1.ask_price) × (sell_leg.price ≡ sell.1.bid_price)
    pub clears : cfg.min_profit_pct ≤? o.net_profit_pct ≡ true
    pub net :
        o.net_profit_pct
        ≡ (sell_leg.price ⊖ buy_leg.price) ⊘ buy_leg.price ⊗ hundred
          ⊖ (buy_leg.fee ⊕ sell_leg.fee) ⊗ hundred
    pub size_positive : o.max_size_usd ≤? nought ≡ false
    pub size_within : cfg.max_trade_usd <? o.max_size_usd ≡ false

  off_diagonal :
      (buy sell : Place F)
      → cfg.min_profit_pct ≤? f.neg f.inf ≡ false
      → cfg.min_profit_pct ≤? net_pct t buy sell ≡ true
      → (buy.0 == sell.0) ≡ false
  unfolding net_pct
  off_diagonal buy sell finite h = elim (Bool-cases (buy.0 == sell.0)) [
    | inr e ↦ e
    | inl e ↦ cc (rw e at h)
  ]

  spread-IsSpread :
      (ordered : IsOrdered F) (name : String) (symbol : String) (now : F) (buy sell : Place F)
      → cfg.min_profit_pct ≤? f.neg f.inf ≡ false
      → cfg.min_profit_pct ≤? net_pct t buy sell ≡ true
      → trade_usd cfg buy.1 sell.1 ≤? nought ≡ false
      → IsSpread buy sell (spread name cfg t symbol now buy sell)
  unfolding net_pct gross_pct
  spread-IsSpread ordered name symbol now buy sell finite passes sized =
      let apart = off_diagonal buy sell finite passes in
      record {
        buy_leg = _;
        sell_leg = _;
        legs = refl;
        buys = refl;
        sells = refl;
        two_rows = λ e. ground arith;
        same_symbol = (refl, refl);
        venues = (refl, refl);
        fees = (refl, refl);
        sized = refl;
        units = refl;
        same_size = refl;
        quoted = (refl, refl);
        clears = passes;
        net = rw apart refl;
        size_positive = sized;
        size_within = min_not_above_right ordered _ cfg.max_trade_usd;
      }

  -- A spread between two rows of the matrix.
  pub record IsFound (matrix : SymbolMatrix F) (o : Opportunity F) : Type 0 where
    pub buy : Place F
    pub sell : Place F
    pub buy_row : Within (number_from 0 matrix) buy
    pub sell_row : Within (number_from 0 matrix) sell
    pub pair : IsSpread buy sell o

  -- With a threshold above minus infinity, whatever cross_exchange reports for a symbol buys at the
  -- venue and the ask of one row of the matrix and sells the same quantity at the venue and the bid of
  -- another; its net profit is that spread in percent less the
  -- taker fees of both venues and clears the threshold; its size is positive, and is the smaller of the two tops
  -- in dollars at the ask, capped at the limit of a trade.
  pub cross_exchange-IsFound :
      (ordered : IsOrdered F) (symbol : String) (now : F) (matrix : SymbolMatrix F)
      → cfg.min_profit_pct ≤? f.neg f.inf ≡ false
      → All (IsFound matrix) (scan_symbol (cross_exchange cfg) t symbol now matrix)
  unfolding cross_exchange_gate
  cross_exchange-IsFound ordered symbol now matrix finite =
      All-imp _
        (λ o b. record {
          buy = b.buy;
          sell = b.sell;
          buy_row = b.buy_row;
          sell_row = b.sell_row;
          pair = subst (IsSpread b.buy b.sell) (sym b.built) (
              spread-IsSpread ordered "cross_exchange" symbol now b.buy b.sell finite b.passes
                b.sized);
        })
        (scan_symbol-IsBuilt (cross_exchange cfg) t symbol now matrix)

  -- With a threshold above minus infinity, whatever latency_arb reports for a symbol buys at the venue
  -- and the ask of one row and sells the same quantity at the venue and the bid of another, with a
  -- profit and a size that clear the settings; and the row that it buys from was updated before the row
  -- that it sells to, by the least lag or more.
  pub latency_arb-IsFound :
      (ordered : IsOrdered F) (symbol : String) (now : F) (matrix : SymbolMatrix F)
      → cfg.min_profit_pct ≤? f.neg f.inf ≡ false
      → All
          (λ o.
            (found : IsFound matrix o) × (cfg.min_lag_sec
                ≤? (found.sell.1.timestamp ⊖ found.buy.1.timestamp)
              ≡ true))
          (scan_symbol (latency_arb cfg) t symbol now matrix)
  unfolding latency_gate
  latency_arb-IsFound ordered symbol now matrix finite =
      All-imp _
        (λ o b.
          let passed = and_true b.passes in
          (
            record {
              buy = b.buy;
              sell = b.sell;
              buy_row = b.buy_row;
              sell_row = b.sell_row;
              pair = subst (IsSpread b.buy b.sell) (sym b.built) (
                  spread-IsSpread ordered "latency_arb" symbol now b.buy b.sell finite passed.0
                    b.sized);
            },
            passed.1,
          ))
        (scan_symbol-IsBuilt (latency_arb cfg) t symbol now matrix)
