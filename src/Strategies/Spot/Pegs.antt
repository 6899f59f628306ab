-- ===== src/Strategies/Spot/Pegs.antt =====
-- What a scan for deviations from the peg offers.
use crypto_arb_engine.Prelude.{
  ◌≡◌, refl, arith, map, Any, Bool, true, false, Option, none, some, List, [], ◌∷◌, String, All,
  All-append, All-imp, Bool-cases, inl, inr, ◌||◌, ◌&&◌,
}
use crypto_arb_engine.Prelude.Dict.{string_key}
use crypto_arb_engine.Prelude.Text.{partition_slash}
use crypto_arb_engine.Float.{Float, ◌⊕◌, ◌⊖◌, ◌⊗◌, ◌⊘◌, ◌≤?◌, ◌<?◌, abs, min, nought, hundred}
use crypto_arb_engine.Core.Types.{Opportunity}
use crypto_arb_engine.Core.Book.{
  BookState, OrderBook, find_book, all_venues, best_bid, best_ask, best_bid_size,
}
use crypto_arb_engine.Core.Graph.{member}
use crypto_arb_engine.Core.Market.{MarketState, PoolState}
use crypto_arb_engine.Config.Venues.{Venues}
use crypto_arb_engine.Config.Universe.{stablecoins, TieredSymbol, build_stable_pairs}
use crypto_arb_engine.Strategies.Shared.{is_stale}
use crypto_arb_engine.Strategies.Gather.{best_first-All}
use crypto_arb_engine.Strategies.Spot.StablecoinDepeg.{
  DepegSettings, Depegs, on_deviation, book_offers, scan_book, scan_pairs, scan_cex_pairs,
  scan_pool, scan_dex_pools, depeg_scan, listed_on, no_depegs, pools_of,
}

or_false : {a b : Bool} → a || b ≡ false → (a ≡ false) × (b ≡ false)
or_false {a} {b} h = ground arith

and_true : {a b : Bool} → a && b ≡ true → (a ≡ true) × (b ≡ true)
and_true {a} {b} h = ground arith

All-held {ℓ} : {A : Type ℓ} (xs : List A) → All (λ x. Any (λ y. y ≡ x) xs) xs
All-held [] = tt
All-held (x ∷ xs) = (Any.here refl, All-imp xs (λ y h. Any.there h) (All-held xs))

module _ {F : Type 0} ⦃f : Float F⦄ where
  -- The deviation, which is the gross profit, is at the threshold or above it, and below the kill switch.
  pub record InBand (cfg : DepegSettings F) (o : Opportunity F) : Type 0 where
    pub below_kill_switch : cfg.kill_switch_pct ≤? o.gross_profit_pct ≡ false
    pub not_below_threshold : o.gross_profit_pct <? cfg.min_profit_pct ≡ false

  -- The deviation of a book's middle from the peg, and of a pool's price.
  abbrev pub book_deviation : BookState F → F
  book_deviation st = ((best_bid st ⊕ best_ask st) ⊘ f.lit 2 0 ⊖ f.lit 1 0) ⊗ hundred

  abbrev pub pool_deviation : PoolState F → F
  pool_deviation pool = (pool.reserve_quote ⊘ pool.reserve_base ⊖ f.lit 1 0) ⊗ hundred

  -- Where the legs are: the venue and the symbol of each.
  abbrev pub leg_places : Opportunity F → List (String × String)
  leg_places o = map {B = String × String} (λ l. (l.venue_id, l.symbol)) o.legs

  -- The gross profit is the size of the deviation of a book that its venue's store holds, priced and not
  -- stale, or of a pool of two stablecoins with a reserve; and the leg is at that venue or pool.
  pub data IsDeviation (now : F) (m : MarketState F) (o : Opportunity F) : Type 0 where
    of_book :
        (venue_id symbol : String) (book : OrderBook F)
        → find_book m.book_store venue_id symbol ≡ some book
        → is_stale now m book.state ≡ false
        → best_bid book.state ≤? nought ≡ false
        → o.gross_profit_pct ≡ abs (book_deviation book.state)
        → leg_places o ≡ (venue_id, symbol) ∷ []
        → IsDeviation now m o
    of_pool :
        (pool : PoolState F)
        → Any (λ p. p ≡ pool) (pools_of m)
        → member (partition_slash pool.symbol).0 stablecoins ≡ true
        → member (partition_slash pool.symbol).1 stablecoins ≡ true
        → pool.reserve_base ≤? nought ≡ false
        → o.gross_profit_pct ≡ abs (pool_deviation pool)
        → leg_places o ≡ (pool.dex_id, pool.symbol) ∷ []
        → IsDeviation now m o

  module _ (cfg : DepegSettings F) where
    abbrev pub IsPegTrade : F → MarketState F → Opportunity F → Type 0
    IsPegTrade now m o = InBand cfg o × IsDeviation now m o

    AllInBand : F → MarketState F → Depegs F → Type 0
    AllInBand now m d = All (IsPegTrade now m) d.found

    on_deviation-InBand :
        (now : F) (m : MarketState F) (symbol : String) (dev : F) (offers : List (Opportunity F))
        (d : Depegs F)
        → All (λ o. (o.gross_profit_pct ≡ abs dev) × IsDeviation now m o) offers
        → AllInBand now m d
        → AllInBand now m (on_deviation cfg symbol dev offers d)
    unfolding on_deviation AllInBand
    on_deviation-InBand now m symbol dev offers d g h =
        elim (Bool-cases (cfg.kill_switch_pct ≤? abs dev)) [
          | inl k ↦ rw k h
          | inr k ↦ rw k (elim (Bool-cases (abs dev <? cfg.min_profit_pct)) [
            | inl l ↦ rw l h
            | inr l ↦ rw l (
                All-append (IsPegTrade now m) d.found offers h (
                  All-imp offers
                    (λ o e. (
                      record { below_kill_switch = rw e.0 k; not_below_threshold = rw e.0 l },
                      e.1,
                    ))
                    g))
          ])
        ]

    module _ (t : Venues F) (now : F) (m : MarketState F) where
      book_offers-gross :
          (venue_id symbol : String) (book : OrderBook F)
          → find_book m.book_store venue_id symbol ≡ some book
          → is_stale now m book.state ≡ false
          → best_bid book.state ≤? nought ≡ false
          → let dev = book_deviation book.state in
            All
              (λ o. (o.gross_profit_pct ≡ abs dev) × IsDeviation now m o)
              (book_offers cfg t now venue_id symbol dev book.state)
      unfolding book_offers
      book_offers-gross venue_id symbol book found fresh priced =
          let st = book.state in
          elim (Bool-cases (min cfg.max_trade_usd (best_bid_size st ⊗ best_bid st) ≤? nought)) [
            | inl k ↦ rw k tt
            | inr k ↦
                rw k (
                  (refl, IsDeviation.of_book venue_id symbol book found fresh priced refl refl),
                  tt,
                )
          ]

      scan_book-InBand :
          (venue_id symbol : String) (b : Option (OrderBook F)) (d : Depegs F)
          → find_book m.book_store venue_id symbol ≡ b
          → AllInBand now m d
          → AllInBand now m (scan_book cfg t now m venue_id symbol b d)
      unfolding scan_book book_offers
      scan_book-InBand venue_id symbol none d found h = h
      scan_book-InBand venue_id symbol (some book) d found h =
          elim (Bool-cases (is_stale now m book.state || best_bid book.state ≤? nought)) [
            | inl k ↦ rw k h
            | inr k ↦
                let fresh : is_stale now m book.state ≡ false = (or_false k).0 in
                let priced : best_bid book.state ≤? nought ≡ false = (or_false k).1 in
                rw k (
                  on_deviation-InBand now m symbol (book_deviation book.state) _ d
                    (book_offers-gross venue_id symbol book found fresh priced) h)
          ]

      scan_pairs-InBand :
          (venue_id : String) (pairs : List TieredSymbol) (d : Depegs F)
          → AllInBand now m d
          → AllInBand now m (scan_pairs cfg t now m venue_id pairs d)
      unfolding scan_pairs
      scan_pairs-InBand venue_id [] d h = h
      scan_pairs-InBand venue_id (p ∷ pairs) d h =
          scan_pairs-InBand venue_id pairs _ (scan_book-InBand venue_id p.symbol _ d refl h)

      scan_cex_pairs-InBand :
          (venues : List String) (d : Depegs F)
          → AllInBand now m d
          → AllInBand now m (scan_cex_pairs cfg t now m venues d)
      unfolding scan_cex_pairs
      scan_cex_pairs-InBand [] d h = h
      scan_cex_pairs-InBand (v ∷ venues) d h =
          scan_cex_pairs-InBand venues _
            (scan_pairs-InBand v (build_stable_pairs (listed_on m.book_store v)) d h)

      scan_pool-InBand :
          (pool : PoolState F) (d : Depegs F)
          → Any (λ p. p ≡ pool) (pools_of m)
          → AllInBand now m d
          → AllInBand now m (scan_pool cfg now pool d)
      unfolding scan_pool
      scan_pool-InBand pool d held h =
          let parts = partition_slash pool.symbol in
          elim (Bool-cases (member parts.0 stablecoins && member parts.1 stablecoins)) [
            | inr k ↦ rw k h
            | inl k ↦ rw k (elim (Bool-cases (pool.reserve_base ≤? nought)) [
              | inl r ↦ rw r h
              | inr r ↦ rw r (
                  on_deviation-InBand now m pool.symbol (pool_deviation pool) _ d
                    (
                      (
                        refl,
                        IsDeviation.of_pool pool held (and_true k).0 (and_true k).1 r refl refl,
                      ),
                      tt,
                    )
                    h)
            ])
          ]

      scan_dex_pools-InBand :
          (pools : List (PoolState F)) (d : Depegs F)
          → All (λ p. Any (λ q. q ≡ p) (pools_of m)) pools
          → AllInBand now m d
          → AllInBand now m (scan_dex_pools cfg now pools d)
      unfolding scan_dex_pools
      scan_dex_pools-InBand [] d held h = h
      scan_dex_pools-InBand (p ∷ pools) d (k, held) h =
          scan_dex_pools-InBand pools _ held (scan_pool-InBand p d k h)

      -- The gross profit of every opportunity of a scan for deviations from the peg is how far, in percent,
      -- the middle of a book that is held, priced and not stale, or the price of a pool of two stablecoins
      -- that has a reserve, is from one; its leg is at that venue or pool; and this deviation is not below
      -- the threshold and does not reach the kill switch.
      pub depeg_scan-InBand : All (IsPegTrade now m) (depeg_scan cfg t now m).found
      unfolding depeg_scan AllInBand
      depeg_scan-InBand = best_first-All (IsPegTrade now m) _ (
          scan_dex_pools-InBand (pools_of m)
            (scan_cex_pairs cfg t now m (all_venues m.book_store) no_depegs) (All-held (pools_of m))
            (scan_cex_pairs-InBand (all_venues m.book_store) no_depegs tt))
