-- ===== src/Strategies/Pools/DexDex.antt =====
-- strategies/dex_dex.py: `DexDexStrategy`. The texts of `detail` are left out.
use crypto_arb_engine.Prelude.{
  Bool, false, not, Option, none, some, List, [], ◌∷◌, ◌++◌, map, String, if◌then◌else◌, ◌||◌,
}
use crypto_arb_engine.Prelude.Dict.{Dict, string_key, get, set}
use crypto_arb_engine.Float.{Float, ◌⊕◌, ◌⊖◌, ◌⊗◌, ◌⊘◌, ◌<?◌, ◌≤?◌, ◌==?◌, nought, hundred}
use crypto_arb_engine.Core.Types.{Side, Opportunity}
use crypto_arb_engine.Core.Market.{MarketState, PoolState}
use crypto_arb_engine.Strategies.Shared.{concat_map, combinations, leg_at, report, best_first}
use crypto_arb_engine.Strategies.Pools.Amm.{quote_pool_output}

pub record PoolSettings (F : Type 0) : Type 0 where
  pub min_profit_pct : F
  pub probe_size_base : F
  pub allow_flash_loan_atomic : Bool

-- `pools_by_symbol`
unfoldable pub group_pools :
    {F : Type 0}
    → List (PoolState F)
    → Dict String (List (PoolState F))
    → Dict String (List (PoolState F))
group_pools [] d = d
group_pools (pool ∷ pools) d =
    group_pools pools (set pool.symbol (get [] pool.symbol d ++ (pool ∷ [])) d)

module _ {F : Type 0} ⦃f : Float F⦄ where
  unfoldable pub spot_price : PoolState F → F
  spot_price pool =
      if pool.reserve_base ==? nought then nought else pool.reserve_quote ⊘ pool.reserve_base

  abbrev pub same_chain : PoolState F → PoolState F → Bool
  same_chain buy sell = string_key.same buy.chain sell.chain

  -- Across chains the bridge is paid as well: BRIDGE_FEE_PCT_DEFAULT.
  unfoldable pub pool_net_pct : PoolState F → PoolState F → F → F
  pool_net_pct buy sell gross =
      if same_chain buy sell
      then gross ⊖ (buy.fee ⊕ sell.fee) ⊗ hundred
      else gross ⊖ (buy.fee ⊕ sell.fee ⊕ f.lit 5 2 ⊘ hundred) ⊗ hundred

  abbrev pub goes_atomic : PoolSettings F → PoolState F → PoolState F → Bool
  goes_atomic cfg buy sell = if same_chain buy sell then cfg.allow_flash_loan_atomic else false

  abbrev pub pool_trade :
      PoolSettings F → F → String → PoolState F → PoolState F → (gross net : F) → Opportunity F
  pool_trade cfg now symbol buy sell gross net =
      let opp =
        report "dex_dex" symbol
          (leg_at Side.buy cfg.probe_size_base (record {
            venue_id = buy.dex_id;
            symbol = symbol;
            price = spot_price buy;
            fee = buy.fee;
          })
            ∷ leg_at Side.sell cfg.probe_size_base (record {
              venue_id = sell.dex_id;
              symbol = symbol;
              price = spot_price sell;
              fee = sell.fee;
            })
            ∷ [])
          gross net (cfg.probe_size_base ⊗ spot_price buy) now in
      let atomic = goes_atomic cfg buy sell in
      record opp { requires_prefunded_inventory = not atomic; is_atomic = atomic }

  -- Buying from one pool and selling to another.
  unfoldable pub pool_direction :
      PoolSettings F → F → String → PoolState F → PoolState F → Option (Opportunity F)
  unfolding spot_price pool_net_pct
  pool_direction cfg now symbol buy sell =
      let gross = (spot_price sell ⊖ spot_price buy) ⊘ spot_price buy ⊗ hundred in
      let net = pool_net_pct buy sell gross in
      if quote_pool_output buy cfg.probe_size_base ≤? nought
      then none
      else (if spot_price buy ≤? nought || spot_price sell ≤? nought
          then none
          else (if net <? cfg.min_profit_pct
              then none
              else some (pool_trade cfg now symbol buy sell gross net)))

  -- The first direction that pays.
  abbrev pub either_of : Option (Opportunity F) → Option (Opportunity F) → List (Opportunity F)
  either_of (some o) second = o ∷ []
  either_of none (some o) = o ∷ []
  either_of none none = []

  unfoldable pub compare_pools :
      PoolSettings F → F → String → PoolState F × PoolState F → List (Opportunity F)
  unfolding pool_direction
  compare_pools cfg now symbol (pool_a, pool_b) =
      either_of (pool_direction cfg now symbol pool_a pool_b)
        (pool_direction cfg now symbol pool_b pool_a)

  unfoldable pub dex_dex_scan : PoolSettings F → F → MarketState F → List (Opportunity F)
  unfolding compare_pools group_pools
  dex_dex_scan cfg now m = best_first (
      concat_map (λ e. concat_map (compare_pools cfg now e.0) (combinations e.1))
        (group_pools (map (λ p. p.1) m.dex_pools) []))
