-- ===== src/Strategies/Spot/KillSwitch.antt =====
-- Which kill switches a scan for deviations from the peg triggers.
use crypto_arb_engine.Prelude.{
  ◌≡◌, refl, sym, subst, Bool, map, filter, is_some, true, false, Option, none, some, List, [], ◌∷◌,
  ◌++◌, String, Any, Bool-cases, inl, inr, arith, ◌||◌, ◌&&◌,
}
use crypto_arb_engine.Prelude.Dict.{Dict, string_key, pair_key, same_refl, lookup}
use crypto_arb_engine.Prelude.Text.{partition_slash}
use crypto_arb_engine.Float.{Float, ◌≤?◌, ◌<?◌, abs, nought}
use crypto_arb_engine.Core.Types.{Opportunity}
use crypto_arb_engine.Core.Book.{
  BookKey, BookStore, OrderBook, find_book, all_venues, all_symbols, add_new, unique, best_bid,
}
use crypto_arb_engine.Core.Graph.{member}
use crypto_arb_engine.Core.Market.{MarketState, PoolState}
use crypto_arb_engine.Config.Venues.{Venues}
use crypto_arb_engine.Config.Universe.{
  stablecoins, TieredSymbol, symbol_of, listed_pairs, stable_pairs_of, build_stable_pairs,
}
use crypto_arb_engine.Config.Universe.Listing.{Any-left, Any-right}
use crypto_arb_engine.Strategies.Shared.{is_stale}
use crypto_arb_engine.Strategies.Spot.StablecoinDepeg.{
  DepegSettings, Depegs, add_to, on_deviation, scan_book, scan_pairs, scan_cex_pairs, scan_pool,
  scan_dex_pools, depeg_scan, listed_on, no_depegs, pools_of,
}
use crypto_arb_engine.Strategies.Spot.Pegs.{book_deviation, pool_deviation}

add_new-has : (x : String) (xs : List String) → Any (λ y. y ≡ x) (add_new xs x)
unfolding add_new
add_new-has x [] = Any.here refl
add_new-has x (y ∷ ys) = elim (Bool-cases (string_key.same y x)) [
  | inl e ↦ rw e (Any.here ((string_key.same_iff y x).0 e))
  | inr e ↦ rw e (Any.there (add_new-has x ys))
]

add_new-keeps :
    (x z : String) (xs : List String) → Any (λ y. y ≡ z) xs → Any (λ y. y ≡ z) (add_new xs x)
unfolding add_new
add_new-keeps x z [] a = elim a [ ]
add_new-keeps x z (y ∷ ys) a = elim (Bool-cases (string_key.same y x)) [
  | inl e ↦ rw e a
  | inr e ↦
      rw e (elim a [ Any.here h ↦ Any.here h | Any.there b ↦ Any.there (add_new-keeps x z ys b) ])
]

unique-keeps :
    (z : String) (seen xs : List String) → Any (λ y. y ≡ z) seen → Any (λ y. y ≡ z) (unique seen xs)
unfolding unique
unique-keeps z seen [] a = a
unique-keeps z seen (x ∷ xs) a = unique-keeps z (add_new seen x) xs (add_new-keeps x z seen a)

unique-has :
    (z : String) (seen xs : List String) → Any (λ y. y ≡ z) xs → Any (λ y. y ≡ z) (unique seen xs)
unfolding unique
unique-has z seen [] a = elim a [ ]
unique-has z seen (x ∷ xs) (Any.here e) =
    unique-keeps z (add_new seen x) xs (rw e (add_new-has z seen))
unique-has z seen (x ∷ xs) (Any.there a) = unique-has z (add_new seen x) xs a

filtered :
    (p : String → Bool) (z : String) (xs : List String)
    → Any (λ y. y ≡ z) xs
    → p z ≡ true
    → member z (filter p xs) ≡ true
unfolding member
filtered p z [] a h = elim a [ ]
filtered p z (x ∷ xs) (Any.here e) h = rw (e, h, same_refl {K = String} z) refl
filtered p z (x ∷ xs) (Any.there a) h = elim (Bool-cases (p x)) [
  | inr k ↦ rw k (filtered p z xs a h)
  | inl k ↦ rw k (ground (arith, filtered p z xs a h))
]

-- Two different stablecoins whose symbol is listed are a pair.
stable_pair :
    (markets : List String) (base quote : String)
    → Any (λ s. s ≡ base) stablecoins
    → Any (λ s. s ≡ quote) stablecoins
    → string_key.same base quote ≡ false
    → member (symbol_of base quote) markets ≡ true
    → (p : TieredSymbol) × Any (λ q. q ≡ p) (build_stable_pairs markets)
      × (p.symbol ≡ symbol_of base quote)
unfolding build_stable_pairs stable_pairs_of listed_pairs
stable_pair markets base quote b q apart listed = among_bases stablecoins b
  where
    pair : TieredSymbol
    pair = record { symbol = symbol_of base quote; base = base; quote = quote; tier = "stable" }

    among_quotes :
        (quotes : List String)
        → Any (λ s. s ≡ quote) quotes
        → Any (λ p. p ≡ pair) (listed_pairs markets "stable" base quotes)
    among_quotes [] a = elim a [ ]
    among_quotes (s ∷ quotes) (Any.here e) = rw (e, apart, listed) (Any.here refl)
    among_quotes (s ∷ quotes) (Any.there a) =
        let rest = among_quotes quotes a in
        elim (Bool-cases (string_key.same base s)) [
          | inl e ↦ rw e rest
          | inr e ↦ rw e (elim (Bool-cases (member (symbol_of base s) markets)) [
            | inr k ↦ rw k rest
            | inl k ↦ rw k (Any.there rest)
          ])
        ]

    among_bases :
        (bases : List String)
        → Any (λ s. s ≡ base) bases
        → (p : TieredSymbol) × Any (λ q. q ≡ p) (stable_pairs_of markets bases)
          × (p.symbol ≡ symbol_of base quote)
    among_bases [] a = elim a [ ]
    among_bases (s ∷ bases) (Any.here e) = (
      pair,
      Any-left (listed_pairs markets "stable" s stablecoins) _ (rw e (among_quotes stablecoins q)),
      refl,
    )
    among_bases (s ∷ bases) (Any.there a) =
        let (p, rest, same) = among_bases bases a in
        (p, Any-right (listed_pairs markets "stable" s stablecoins) _ rest, same)

module _ {F : Type 0} ⦃f : Float F⦄ where
  key_held :
      (k : BookKey) (d : Dict BookKey (OrderBook F))
      → is_some (lookup k d) ≡ true
      → Any (λ v. v ≡ k.0) (map (λ e. e.0.0) d) × Any (λ s. s ≡ k.1) (map (λ e. e.0.1) d)
  unfolding lookup
  key_held k [] h = cc
  key_held k ((j, b) ∷ d) h = elim (Bool-cases (pair_key.same j k)) [
    | inl e ↦
        let same = (pair_key.same_iff j k).0 e in
        (Any.here (λ i. (same i).0), Any.here (λ i. (same i).1))
    | inr e ↦ let (v, s) = key_held k d (rw e at h) in (Any.there v, Any.there s)
  ]

  -- The venue and the symbol of a book that is found are among those of the store.
  held_key :
      (store : BookStore F) (venue_id symbol : String)
      → is_some (find_book store venue_id symbol) ≡ true
      → Any (λ v. v ≡ venue_id) (all_venues store) × Any (λ s. s ≡ symbol) (all_symbols store)
  unfolding find_book all_venues all_symbols
  held_key store venue_id symbol h =
      let (v, s) = key_held (venue_id, symbol) store.books h in
      (unique-has venue_id [] _ v, unique-has symbol [] _ s)

  listed_held :
      (store : BookStore F) (venue_id symbol : String)
      → Any (λ s. s ≡ symbol) (all_symbols store)
      → is_some (find_book store venue_id symbol) ≡ true
      → member symbol (listed_on store venue_id) ≡ true
  listed_held store venue_id symbol a h =
      filtered (λ s. is_some (find_book store venue_id s)) symbol (all_symbols store) a h

  module _ (cfg : DepegSettings F) where
    Triggers : String → Depegs F → Type 0
    Triggers symbol d = member symbol d.triggered ≡ true

    member-append :
        (x : String) (xs ys : List String) → member x (xs ++ ys) ≡ (member x xs || member x ys)
    unfolding member
    member-append x [] ys = refl
    member-append x (z ∷ xs) ys = ground (arith, member-append x xs ys)

    member-add_to :
        (x y : String) (xs : List String) → member x xs ≡ true → member x (add_to y xs) ≡ true
    member-add_to x y xs h = ground (arith, h, member-append x xs (y ∷ []))

    add_to-has : (x : String) (xs : List String) → member x (add_to x xs) ≡ true
    unfolding member
    add_to-has x xs = ground (arith, member-append x xs (x ∷ []), same_refl x)

    on_deviation-keeps :
        (x symbol : String) (dev : F) (offers : List (Opportunity F)) (d : Depegs F)
        → Triggers x d
        → Triggers x (on_deviation cfg symbol dev offers d)
    unfolding on_deviation Triggers
    on_deviation-keeps x symbol dev offers d h =
        elim (Bool-cases (cfg.kill_switch_pct ≤? abs dev)) [
          | inl k ↦ rw k (member-add_to x symbol d.triggered h)
          | inr k ↦ rw k (elim (Bool-cases (abs dev <? cfg.min_profit_pct)) [
            | inl l ↦ rw l h
            | inr l ↦ rw l h
          ])
        ]

    on_deviation-Triggers :
        (symbol : String) (dev : F) (offers : List (Opportunity F)) (d : Depegs F)
        → cfg.kill_switch_pct ≤? abs dev ≡ true
        → Triggers symbol (on_deviation cfg symbol dev offers d)
    unfolding on_deviation Triggers
    on_deviation-Triggers symbol dev offers d k = rw k (add_to-has symbol d.triggered)

    module _ (t : Venues F) (now : F) (m : MarketState F) where
      -- A book whose deviation reaches the kill switch: priced, not stale.
      abbrev IsOff : Option (OrderBook F) → Type 0
      IsOff none = ⊥
      IsOff (some book) =
          (is_stale now m book.state ≡ false)
          × (best_bid book.state ≤? nought ≡ false)
          × (cfg.kill_switch_pct ≤? abs (book_deviation book.state) ≡ true)

      -- A pool of two stablecoins whose price is off by the kill switch or more.
      abbrev IsPoolOff : PoolState F → Type 0
      IsPoolOff pool =
          let parts = partition_slash pool.symbol in
          (member parts.0 stablecoins ≡ true)
          × (member parts.1 stablecoins ≡ true)
          × (pool.reserve_base ≤? nought ≡ false)
          × (cfg.kill_switch_pct ≤? abs (pool_deviation pool) ≡ true)

      scan_book-keeps :
          (x venue_id symbol : String) (b : Option (OrderBook F)) (d : Depegs F)
          → Triggers x d
          → Triggers x (scan_book cfg t now m venue_id symbol b d)
      unfolding scan_book
      scan_book-keeps x venue_id symbol none d h = h
      scan_book-keeps x venue_id symbol (some book) d h =
          elim (Bool-cases (is_stale now m book.state || best_bid book.state ≤? nought)) [
            | inl k ↦ rw k h
            | inr k ↦ rw k (on_deviation-keeps x symbol (book_deviation book.state) _ d h)
          ]

      scan_pairs-keeps :
          (x venue_id : String) (pairs : List TieredSymbol) (d : Depegs F)
          → Triggers x d
          → Triggers x (scan_pairs cfg t now m venue_id pairs d)
      unfolding scan_pairs
      scan_pairs-keeps x venue_id [] d h = h
      scan_pairs-keeps x venue_id (p ∷ pairs) d h =
          scan_pairs-keeps x venue_id pairs _ (scan_book-keeps x venue_id p.symbol _ d h)

      scan_cex_pairs-keeps :
          (x : String) (venues : List String) (d : Depegs F)
          → Triggers x d
          → Triggers x (scan_cex_pairs cfg t now m venues d)
      unfolding scan_cex_pairs
      scan_cex_pairs-keeps x [] d h = h
      scan_cex_pairs-keeps x (v ∷ venues) d h =
          scan_cex_pairs-keeps x venues _
            (scan_pairs-keeps x v (build_stable_pairs (listed_on m.book_store v)) d h)

      scan_pool-keeps :
          (x : String) (pool : PoolState F) (d : Depegs F)
          → Triggers x d
          → Triggers x (scan_pool cfg now pool d)
      unfolding scan_pool
      scan_pool-keeps x pool d h =
          let parts = partition_slash pool.symbol in
          elim (Bool-cases (member parts.0 stablecoins && member parts.1 stablecoins)) [
            | inr k ↦ rw k h
            | inl k ↦ rw k (elim (Bool-cases (pool.reserve_base ≤? nought)) [
              | inl r ↦ rw r h
              | inr r ↦ rw r (on_deviation-keeps x pool.symbol (pool_deviation pool) _ d h)
            ])
          ]

      scan_dex_pools-keeps :
          (x : String) (pools : List (PoolState F)) (d : Depegs F)
          → Triggers x d
          → Triggers x (scan_dex_pools cfg now pools d)
      unfolding scan_dex_pools
      scan_dex_pools-keeps x [] d h = h
      scan_dex_pools-keeps x (p ∷ pools) d h =
          scan_dex_pools-keeps x pools _ (scan_pool-keeps x p d h)

      scan_book-Triggers :
          (venue_id symbol : String) (b : Option (OrderBook F)) (d : Depegs F)
          → IsOff b
          → Triggers symbol (scan_book cfg t now m venue_id symbol b d)
      unfolding scan_book
      scan_book-Triggers venue_id symbol none d h = elim h [ ]
      scan_book-Triggers venue_id symbol (some book) d (fresh, priced, off) =
          rw (fresh, priced) (on_deviation-Triggers symbol (book_deviation book.state) _ d off)

      scan_pairs-Triggers :
          (venue_id : String) (p : TieredSymbol) (pairs : List TieredSymbol) (d : Depegs F)
          → Any (λ q. q ≡ p) pairs
          → IsOff (find_book m.book_store venue_id p.symbol)
          → Triggers p.symbol (scan_pairs cfg t now m venue_id pairs d)
      unfolding scan_pairs
      scan_pairs-Triggers venue_id p [] d a h = elim a [ ]
      scan_pairs-Triggers venue_id p (q ∷ pairs) d (Any.here e) h =
          rw e (
            scan_pairs-keeps p.symbol venue_id pairs _ (scan_book-Triggers venue_id p.symbol _ d h))
      scan_pairs-Triggers venue_id p (q ∷ pairs) d (Any.there a) h =
          scan_pairs-Triggers venue_id p pairs _ a h

      scan_cex_pairs-Triggers :
          (venue_id : String) (p : TieredSymbol) (venues : List String) (d : Depegs F)
          → Any (λ v. v ≡ venue_id) venues
          → Any (λ q. q ≡ p) (build_stable_pairs (listed_on m.book_store venue_id))
          → IsOff (find_book m.book_store venue_id p.symbol)
          → Triggers p.symbol (scan_cex_pairs cfg t now m venues d)
      unfolding scan_cex_pairs
      scan_cex_pairs-Triggers venue_id p [] d v a h = elim v [ ]
      scan_cex_pairs-Triggers venue_id p (v ∷ venues) d (Any.here e) a h =
          subst (λ u. Triggers p.symbol (scan_cex_pairs cfg t now m (u ∷ venues) d)) (sym e)
            (scan_cex_pairs-keeps p.symbol venues _ (
              scan_pairs-Triggers venue_id p (build_stable_pairs (listed_on m.book_store venue_id))
                d a h))
      scan_cex_pairs-Triggers venue_id p (v ∷ venues) d (Any.there u) a h =
          scan_cex_pairs-Triggers venue_id p venues _ u a h

      scan_pool-Triggers :
          (pool : PoolState F) (d : Depegs F)
          → IsPoolOff pool
          → Triggers pool.symbol (scan_pool cfg now pool d)
      unfolding scan_pool
      scan_pool-Triggers pool d (base, quote, reserve, off) =
          rw (base, quote, reserve)
            (on_deviation-Triggers pool.symbol (pool_deviation pool) _ d off)

      scan_dex_pools-Triggers :
          (pool : PoolState F) (pools : List (PoolState F)) (d : Depegs F)
          → Any (λ p. p ≡ pool) pools
          → IsPoolOff pool
          → Triggers pool.symbol (scan_dex_pools cfg now pools d)
      unfolding scan_dex_pools
      scan_dex_pools-Triggers pool [] d a h = elim a [ ]
      scan_dex_pools-Triggers pool (p ∷ pools) d (Any.here e) h =
          rw e (scan_dex_pools-keeps pool.symbol pools _ (scan_pool-Triggers pool d h))
      scan_dex_pools-Triggers pool (p ∷ pools) d (Any.there a) h =
          scan_dex_pools-Triggers pool pools _ a h

      IsOff-held : (b : Option (OrderBook F)) → IsOff b → is_some b ≡ true
      IsOff-held none h = elim h [ ]
      IsOff-held (some book) h = refl

      -- Where a symbol is off its peg by the kill switch or more: in the book of a pair of stablecoins,
      -- or in a pool of two stablecoins.
      pub data IsOffPeg : String → Type 0 where
        in_book :
            (venue_id base quote : String)
            → Any (λ s. s ≡ base) stablecoins
            → Any (λ s. s ≡ quote) stablecoins
            → string_key.same base quote ≡ false
            → IsOff (find_book m.book_store venue_id (symbol_of base quote))
            → IsOffPeg (symbol_of base quote)
        in_pool :
            (pool : PoolState F)
            → Any (λ p. p ≡ pool) (pools_of m)
            → IsPoolOff pool
            → IsOffPeg pool.symbol

      -- The scan triggers the kill switch of a symbol whose deviation reaches it, be it in a book that the
      -- store holds, that is priced and not stale, of a pair of two stablecoins, or in a pool of two
      -- stablecoins that has a reserve.
      pub depeg_scan-Triggers :
          (symbol : String)
          → IsOffPeg symbol
          → member symbol (depeg_scan cfg t now m).triggered ≡ true
      unfolding depeg_scan Triggers
      depeg_scan-Triggers symbol (IsOffPeg.in_book venue_id base quote b q apart h) =
          let store = m.book_store in
          let found = held_key store venue_id (symbol_of base quote) (IsOff-held _ h) in
          let markets = listed_on store venue_id in
          let (p, pair, same) =
            stable_pair markets base quote b q apart
              (listed_held store venue_id (symbol_of base quote) found.1 (IsOff-held _ h)) in
          scan_dex_pools-keeps (symbol_of base quote) (pools_of m) _ (
            subst (λ s. Triggers s (scan_cex_pairs cfg t now m (all_venues store) no_depegs)) same
              (scan_cex_pairs-Triggers venue_id p (all_venues store) no_depegs found.0 pair
                (subst (λ s. IsOff (find_book store venue_id s)) (sym same) h)))
      depeg_scan-Triggers symbol (IsOffPeg.in_pool pool a h) =
          scan_dex_pools-Triggers pool (pools_of m)
            (scan_cex_pairs cfg t now m (all_venues m.book_store) no_depegs) a h
