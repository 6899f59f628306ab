-- ===== src/Config/Universe.antt =====
-- config/universe.py: the tiers, the tradeable symbols, and the poll budget.
pub mod Listing
pub mod Ranking
pub mod Budget
use Prim.Native.String.{◌++◌ as text_append}
use crypto_arb_engine.Prelude.{
  ℕ, suc, ◌+◌, Bool, true, false, not, Option, none, some, List, [], ◌∷◌, ◌++◌, map, filter, String,
  if◌then◌else◌, ltb, leb, ◌==◌, ◌&&◌, ◌||◌, take, length, or_default,
}
use crypto_arb_engine.Prelude.Dict.{Dict, string_key, lookup, get, set}
use crypto_arb_engine.Prelude.Sort.{sort}
use crypto_arb_engine.Prelude.Text.{partition_slash}
use crypto_arb_engine.Core.Graph.{member}
use crypto_arb_engine.Core.Route.{text_before}

abbrev pub tier_1 : List String
tier_1 = "BTC" ∷ "ETH" ∷ "SOL" ∷ "BNB" ∷ "XRP" ∷ "ADA" ∷ "DOGE" ∷ "AVAX" ∷ "TRX" ∷ "LINK" ∷ []

abbrev pub tier_2 : List String
tier_2 =
    "DOT" ∷ "MATIC" ∷ "TON" ∷ "SHIB" ∷ "LTC" ∷ "BCH" ∷ "UNI" ∷ "ATOM" ∷ "XLM" ∷ "ETC" ∷ "NEAR"
    ∷ "APT" ∷ "FIL" ∷ "ARB" ∷ "OP" ∷ "INJ" ∷ "IMX" ∷ "HBAR" ∷ "VET" ∷ "SUI" ∷ []

abbrev pub tier_3 : List String
tier_3 =
    "AAVE" ∷ "MKR" ∷ "GRT" ∷ "SAND" ∷ "MANA" ∷ "AXS" ∷ "RUNE" ∷ "FTM" ∷ "ALGO" ∷ "EGLD" ∷ "THETA"
    ∷ "FLOW" ∷ "CHZ" ∷ "CRV" ∷ "LDO" ∷ "SNX" ∷ "COMP" ∷ "ENS" ∷ "DYDX" ∷ "GMX" ∷ "PENDLE" ∷ "JTO"
    ∷ "TIA" ∷ "SEI" ∷ "STX" ∷ "RNDR" ∷ "PYTH" ∷ "JUP" ∷ "WIF" ∷ "BONK" ∷ []

abbrev pub stablecoins : List String
stablecoins = "USDT" ∷ "USDC" ∷ "DAI" ∷ "FDUSD" ∷ "TUSD" ∷ "USDE" ∷ "EURC" ∷ []

abbrev pub wrapped_assets : List String
wrapped_assets =
    "WBTC" ∷ "WETH" ∷ "STETH" ∷ "WSTETH" ∷ "RETH" ∷ "CBETH" ∷ "WBNB" ∷ "WSOL" ∷ "JITOSOL" ∷ "MSOL"
    ∷ []

abbrev pub quote_assets : List String
quote_assets = "USDT" ∷ "USDC" ∷ "BTC" ∷ "ETH" ∷ "EUR" ∷ []

abbrev pub wrapped_underlying : Dict String String
wrapped_underlying =
    ("WBTC", "BTC")
    ∷ ("WETH", "ETH")
    ∷ ("STETH", "ETH")
    ∷ ("WSTETH", "ETH")
    ∷ ("RETH", "ETH")
    ∷ ("CBETH", "ETH")
    ∷ ("WBNB", "BNB")
    ∷ ("WSOL", "SOL")
    ∷ ("JITOSOL", "SOL")
    ∷ ("MSOL", "SOL")
    ∷ []

abbrev pub all_base_assets : List String
all_base_assets = tier_1 ++ (tier_2 ++ (tier_3 ++ wrapped_assets))

pub record TieredSymbol : Type 0 where
  pub symbol : String
  pub base : String
  pub quote : String
  pub tier : String

unfoldable pub tier_of : String → String
tier_of base_asset =
    if member base_asset stablecoins
    then "stable"
    else (if member base_asset wrapped_assets
        then "wrapped"
        else (if member base_asset tier_1
            then "tier1"
            else (if member base_asset tier_2 then "tier2" else "tier3")))

-- `f"{base}/{quote}"`
abbrev pub symbol_of : String → String → String
symbol_of base quote = text_append base (text_append "/" quote)

-- The loop over the quotes of one base; `tier` is the tier that a pair gets.
unfoldable pub listed_pairs : List String → String → String → List String → List TieredSymbol
listed_pairs venue_markets tier base [] = []
listed_pairs venue_markets tier base (quote ∷ quotes) =
    let rest = listed_pairs venue_markets tier base quotes in
    if string_key.same base quote
    then rest
    else (if member (symbol_of base quote) venue_markets
        then record { symbol = symbol_of base quote; base = base; quote = quote; tier = tier }
          ∷ rest
        else rest)

unfoldable pub build_tradeable_symbols :
    List String → (quotes bases : List String) → List TieredSymbol
unfolding listed_pairs tier_of
build_tradeable_symbols venue_markets quotes [] = []
build_tradeable_symbols venue_markets quotes (base ∷ bases) =
    listed_pairs venue_markets (tier_of base) base quotes
    ++ build_tradeable_symbols venue_markets quotes bases

-- The loop over the bases of `build_stable_pairs`.
unfoldable pub stable_pairs_of : List String → List String → List TieredSymbol
unfolding listed_pairs
stable_pairs_of venue_markets [] = []
stable_pairs_of venue_markets (base ∷ bases) =
    listed_pairs venue_markets "stable" base stablecoins ++ stable_pairs_of venue_markets bases

unfoldable pub build_stable_pairs : List String → List TieredSymbol
unfolding stable_pairs_of
build_stable_pairs venue_markets = stable_pairs_of venue_markets stablecoins

abbrev pub tier_priority : List String
tier_priority = "tier1" ∷ "stable" ∷ "wrapped" ∷ "tier2" ∷ "tier3" ∷ []

-- `xs.index(x) if x in xs else len(xs)`
unfoldable pub index_or_length : String → List String → ℕ
index_or_length x [] = 0
index_or_length x (y ∷ ys) =
    let rest = index_or_length x ys in if string_key.same y x then 0 else suc rest

-- `_BASE_RANK`: a base's position in its tier.
unfoldable pub rank_tier : ℕ → List String → Dict String ℕ → Dict String ℕ
rank_tier n [] d = d
rank_tier n (base ∷ bases) d = rank_tier (suc n) bases (set base n d)

unfoldable pub base_ranks : Dict String ℕ
unfolding rank_tier
base_ranks =
    rank_tier 0 wrapped_assets
      (rank_tier 0 stablecoins (rank_tier 0 tier_3 (rank_tier 0 tier_2 (rank_tier 0 tier_1 []))))

-- `_symbol_rank`; of two equal prefixes the larger count of venues comes first.
pub record Rank : Type 0 where
  pub tier : ℕ
  pub base : ℕ
  pub quote : ℕ
  pub venue_count : ℕ
  pub symbol : String

unfoldable pub symbol_rank : String → ℕ → Rank
unfolding tier_of index_or_length base_ranks
symbol_rank symbol venue_count =
    let (base, quote) = partition_slash symbol in
    record {
      tier = index_or_length (tier_of base) tier_priority;
      base = get (length base_ranks) base base_ranks;
      quote = index_or_length quote quote_assets;
      venue_count = venue_count;
      symbol = symbol;
    }

-- The order of tuples.
unfoldable pub rank_before : Rank → Rank → Bool
rank_before a b =
    ltb a.tier b.tier
    || (a.tier == b.tier
        && (ltb a.base b.base
            || (a.base == b.base
                && (ltb a.quote b.quote
                    || (a.quote == b.quote
                        && (ltb b.venue_count a.venue_count
                            || (a.venue_count == b.venue_count
                                && text_before a.symbol b.symbol)))))))

-- The count of venues that list each symbol. A venue's symbols are a set.
unfoldable pub count_listed : List String → Dict String ℕ → Dict String ℕ
count_listed [] d = d
count_listed (symbol ∷ listed) d = count_listed listed (set symbol (get 0 symbol d + 1) d)

unfoldable pub count_venues : Dict String (List String) → Dict String ℕ → Dict String ℕ
unfolding count_listed
count_venues [] d = d
count_venues ((venue, listed) ∷ symbols_by_venue) d =
    count_venues symbols_by_venue (count_listed listed d)

abbrev pub by_rank : Dict String ℕ → String → String → Bool
by_rank counts a b = rank_before (symbol_rank a (get 0 a counts)) (symbol_rank b (get 0 b counts))

unfoldable pub eligible : ℕ → Dict String ℕ → List String
eligible min_venues counts = map (λ e. e.0) (filter (λ e. leb min_venues e.1) counts)

unfoldable pub select_pollable_symbols :
    Dict String (List String) → (max_symbols min_venues : ℕ) → List String
unfolding count_venues eligible
select_pollable_symbols symbols_by_venue max_symbols min_venues =
    let counts = count_venues symbols_by_venue [] in
    let ranked = sort (by_rank counts) (eligible min_venues counts) in
    if max_symbols == 0 then ranked else take max_symbols ranked
