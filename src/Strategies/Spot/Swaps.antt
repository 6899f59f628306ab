-- ===== src/Strategies/Spot/Swaps.antt =====
-- What the scan across quotes of one venue finds.
use crypto_arb_engine.Prelude.{
  ◌≡◌, ◌≢◌, refl, sym, subst, true, false, Option, none, some, List, [], ◌∷◌, String, All,
  All-append, All-and, Bool-cases, inl, inr, ◌||◌, ltb, length,
}
use crypto_arb_engine.Prelude.Dict.{pair_key, lookup, get, set}
use crypto_arb_engine.Prelude.Text.{split_slash}
use crypto_arb_engine.Float.{Float, ◌⊖◌, ◌⊗◌, ◌⊘◌, ◌≤?◌, ◌<?◌, min, nought, hundred}
use crypto_arb_engine.Core.Types.{Side, Opportunity}
use crypto_arb_engine.Core.Book.{
  OrderBook, find_book, venues_for_symbol, best_bid, best_ask, best_bid_size, best_ask_size,
}
use crypto_arb_engine.Core.Graph.{member}
use crypto_arb_engine.Core.Market.{MarketState}
use crypto_arb_engine.Config.Venues.{Venues}
use crypto_arb_engine.Config.Universe.{stablecoins}
use crypto_arb_engine.Strategies.Pairs.{Settings}
use crypto_arb_engine.Strategies.Shared.{combinations, leg_at, taker_fee_at, is_stale}
use crypto_arb_engine.Strategies.Gather.{concat_map-of-All, combinations-All, best_first-All}
use crypto_arb_engine.Strategies.Spot.Groups.{Distinct, group_symbols-Distinct, combinations-apart}
use crypto_arb_engine.Strategies.Spot.CrossQuote.{
  ByBase, add_venues, group_symbol, group_symbols, compare, both_ways, quotes_of, cross_quote_scan,
}

-- A symbol of the base against a stablecoin.
pub record IsStableQuote (base symbol : String) : Type 0 where
  pub quote : String
  pub spelled : split_slash symbol ≡ some (base, quote)
  pub stable : member quote stablecoins ≡ true

-- The symbols that stand under a venue and a base are of that base, against stablecoins.
abbrev AreGrouped : ByBase → Type 0
AreGrouped = All (λ e. All (IsStableQuote e.0.1) e.1)

set-AreGrouped :
    (venue base : String) (symbols : List String) (d : ByBase)
    → All (IsStableQuote base) symbols
    → AreGrouped d
    → AreGrouped (set (venue, base) symbols d)
unfolding set
set-AreGrouped venue base symbols [] s h = (s, tt)
set-AreGrouped venue base symbols ((k, v) ∷ d) s (h, hs) =
    elim (Bool-cases (pair_key.same k (venue, base))) [
      | inr q ↦ rw q (h, set-AreGrouped venue base symbols d s hs)
      | inl q ↦ rw q (
        subst (λ p. All (IsStableQuote p.1) symbols) (sym ((pair_key.same_iff k (venue, base)).0 q))
            s,
        hs,
      )
    ]

get-AreGrouped :
    (venue base : String) (d : ByBase)
    → AreGrouped d
    → All (IsStableQuote base) (get [] (venue, base) d)
unfolding lookup
get-AreGrouped venue base [] h = tt
get-AreGrouped venue base ((k, v) ∷ d) (h, hs) = elim (Bool-cases (pair_key.same k (venue, base))) [
  | inr q ↦ rw q (get-AreGrouped venue base d hs)
  | inl q ↦
      rw q (subst (λ p. All (IsStableQuote p.1) v) ((pair_key.same_iff k (venue, base)).0 q) h)
]

add_venues-AreGrouped :
    (symbol base : String) (venues : List String) (d : ByBase)
    → IsStableQuote base symbol
    → AreGrouped d
    → AreGrouped (add_venues symbol base venues d)
unfolding add_venues
add_venues-AreGrouped symbol base [] d s h = h
add_venues-AreGrouped symbol base (v ∷ venues) d s h =
    add_venues-AreGrouped symbol base venues _ s (
      set-AreGrouped v base _ d
        (All-append _ (get [] (v, base) d) _ (get-AreGrouped v base d h) (s, tt)) h)

module _ {F : Type 0} (m : MarketState F) where
  group_symbol-AreGrouped :
      (symbol : String) (parts : Option (String × String)) (d : ByBase)
      → split_slash symbol ≡ parts
      → AreGrouped d
      → AreGrouped (group_symbol m symbol parts d)
  unfolding group_symbol
  group_symbol-AreGrouped symbol none d e h = h
  group_symbol-AreGrouped symbol (some (base, quote)) d e h =
      elim (Bool-cases (member quote stablecoins)) [
        | inr q ↦ rw q h
        | inl q ↦ rw q (
            add_venues-AreGrouped symbol base (venues_for_symbol m.book_store symbol) d
              (record { quote = quote; spelled = e; stable = q }) h)
      ]

  group_symbols-AreGrouped :
      (symbols : List String) (d : ByBase) → AreGrouped d → AreGrouped (group_symbols m symbols d)
  unfolding group_symbols
  group_symbols-AreGrouped [] d h = h
  group_symbols-AreGrouped (s ∷ symbols) d h =
      group_symbols-AreGrouped symbols _ (group_symbol-AreGrouped s (split_slash s) d refl h)

module _ {F : Type 0} ⦃f : Float F⦄ (cfg : Settings F) (t : Venues F) (now : F)
    (m : MarketState F) where
  -- Buying the base on a venue for one stablecoin and selling it there for another, at the best prices of
  -- books that are not stale; the size is the smaller of the two tops, capped, and the net profit, with
  -- the fee twice, is not below the threshold.
  pub record IsSwap (o : Opportunity F) : Type 0 where
    pub venue_id : String
    pub base : String
    pub buy_symbol : String
    pub sell_symbol : String
    pub two_symbols : buy_symbol ≢ sell_symbol
    pub buy_quote : IsStableQuote base buy_symbol
    pub sell_quote : IsStableQuote base sell_symbol
    pub buy : OrderBook F
    pub sell : OrderBook F
    pub buy_found : find_book m.book_store venue_id buy_symbol ≡ some buy
    pub sell_found : find_book m.book_store venue_id sell_symbol ≡ some sell
    pub fresh : (is_stale now m buy.state || is_stale now m sell.state) ≡ false
    pub sized :
        o.max_size_usd
        ≡ min
            (min (best_ask_size buy.state) (best_bid_size sell.state) ⊗ best_ask buy.state)
            cfg.max_trade_usd
    pub positive : o.max_size_usd ≤? nought ≡ false
    pub legs :
        o.legs
        ≡ leg_at Side.buy (o.max_size_usd ⊘ best_ask buy.state) (record {
          venue_id = venue_id;
          symbol = buy_symbol;
          price = best_ask buy.state;
          fee = taker_fee_at t venue_id;
        })
          ∷ leg_at Side.sell (o.max_size_usd ⊘ best_ask buy.state) (record {
            venue_id = venue_id;
            symbol = sell_symbol;
            price = best_bid sell.state;
            fee = taker_fee_at t venue_id;
          })
          ∷ []
    pub net :
        o.net_profit_pct
        ≡ (best_bid sell.state ⊖ best_ask buy.state) ⊘ best_ask buy.state ⊗ hundred
          ⊖ taker_fee_at t venue_id ⊗ f.lit 2 0 ⊗ hundred
    pub worthwhile : o.net_profit_pct <? cfg.min_profit_pct ≡ false

  compare-IsSwap :
      (venue_id base buy_symbol sell_symbol : String) (buy sell : Option (OrderBook F))
      → buy_symbol ≢ sell_symbol
      → IsStableQuote base buy_symbol
      → IsStableQuote base sell_symbol
      → find_book m.book_store venue_id buy_symbol ≡ buy
      → find_book m.book_store venue_id sell_symbol ≡ sell
      → All IsSwap (
          compare cfg now m venue_id base buy_symbol sell_symbol (taker_fee_at t venue_id) buy sell)
  unfolding compare
  compare-IsSwap venue_id base buy_symbol sell_symbol none sell n a b e d = tt
  compare-IsSwap venue_id base buy_symbol sell_symbol (some buy) none n a b e d = tt
  compare-IsSwap venue_id base buy_symbol sell_symbol (some buy) (some sell) n a b e d =
      let net =
        (best_bid sell.state ⊖ best_ask buy.state) ⊘ best_ask buy.state ⊗ hundred
        ⊖ taker_fee_at t venue_id ⊗ f.lit 2 0 ⊗ hundred in
      let size =
        min (min (best_ask_size buy.state) (best_bid_size sell.state) ⊗ best_ask buy.state)
          cfg.max_trade_usd in
      elim (Bool-cases (is_stale now m buy.state || is_stale now m sell.state)) [
        | inl k ↦ rw k tt
        | inr k ↦
            rw k
              (elim (Bool-cases (best_ask buy.state ≤? nought || best_bid sell.state ≤? nought)) [
                | inl p ↦ rw p tt
                | inr p ↦ rw p (elim (Bool-cases (net <? cfg.min_profit_pct)) [
                  | inl w ↦ rw w tt
                  | inr w ↦ rw w (elim (Bool-cases (size ≤? nought)) [
                    | inl z ↦ rw z tt
                    | inr z ↦ rw z (
                      record {
                        venue_id = venue_id;
                        base = base;
                        buy_symbol = buy_symbol;
                        sell_symbol = sell_symbol;
                        two_symbols = n;
                        buy_quote = a;
                        sell_quote = b;
                        buy = buy;
                        sell = sell;
                        buy_found = e;
                        sell_found = d;
                        fresh = k;
                        sized = refl;
                        positive = z;
                        legs = refl;
                        net = refl;
                        worthwhile = w;
                      },
                      tt,
                    )
                  ])
                ])
              ])
      ]

  both_ways-IsSwap :
      (venue_id base : String) (p : String × String)
      → (IsStableQuote base p.0 × IsStableQuote base p.1) × (p.0 ≢ p.1)
      → All IsSwap (both_ways cfg now m venue_id base (taker_fee_at t venue_id) p)
  unfolding both_ways
  both_ways-IsSwap venue_id base (a, b) ((p, q), n) =
      All-append IsSwap (compare cfg now m venue_id base a b (taker_fee_at t venue_id) _ _) _
        (compare-IsSwap venue_id base a b _ _ n p q refl refl)
        (compare-IsSwap venue_id base b a _ _ (λ e. n (sym e)) q p refl refl)

  quotes_of-IsSwap :
      (e : (String × String) × List String)
      → All (IsStableQuote e.0.1) e.1 × Distinct e.1
      → All IsSwap (quotes_of cfg t now m e)
  unfolding quotes_of
  quotes_of-IsSwap ((venue_id, base), symbols) (h, apart) =
      elim (Bool-cases (ltb (length symbols) 2)) [
        | inl k ↦ rw k tt
        | inr k ↦ rw k (
            concat_map-of-All IsSwap (both_ways cfg now m venue_id base (taker_fee_at t venue_id))
              (combinations symbols) (both_ways-IsSwap venue_id base)
              (All-and _ _ (combinations symbols) (combinations-All (IsStableQuote base) symbols h)
                (combinations-apart symbols apart)))
      ]

  -- Where no symbol of the snapshot and no venue of a symbol stands twice, whatever the scan across quotes
  -- finds buys a base on a venue under one symbol and sells it there under another, both against
  -- stablecoins, at the best prices of books that are not stale. Its size is positive and the smaller of what
  -- stands at those prices, capped by the setting, and its net profit is the spread less the fee twice, and
  -- is not below the threshold.
  pub cross_quote_scan-IsSwap :
      Distinct m.symbols
      → ((s : String) → Distinct (venues_for_symbol m.book_store s))
      → All IsSwap (cross_quote_scan cfg t now m)
  unfolding cross_quote_scan
  cross_quote_scan-IsSwap apart once = best_first-All IsSwap _ (
      concat_map-of-All IsSwap (quotes_of cfg t now m) (group_symbols m m.symbols [])
        quotes_of-IsSwap
        (All-and _ _ (group_symbols m m.symbols []) (group_symbols-AreGrouped m m.symbols [] tt)
          (group_symbols-Distinct m once apart)))
