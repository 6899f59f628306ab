-- ===== src/Strategies/Pools/Amm.antt =====
-- strategies/dex_dex.py: the arithmetic of the pools.
use crypto_arb_engine.Prelude.{Bool, Option, none, some, if◌then◌else◌, ◌||◌}
use crypto_arb_engine.Float.{Float, ◌⊕◌, ◌⊖◌, ◌⊗◌, ◌⊘◌, ◌≤?◌, nought}
use crypto_arb_engine.Core.Market.{PoolState}

module _ {F : Type 0} ⦃f : Float F⦄ where
  unfoldable pub constant_product_output : (reserve_in reserve_out amount_in fee : F) → F
  constant_product_output reserve_in reserve_out amount_in fee =
      let amount_in_after_fee = amount_in ⊗ (f.lit 1 0 ⊖ fee) in
      if reserve_in ≤? nought || (reserve_out ≤? nought || amount_in ≤? nought)
      then nought
      else reserve_out ⊗ amount_in_after_fee ⊘ (reserve_in ⊕ amount_in_after_fee)

  unfoldable pub constant_product_input_needed : (reserve_in reserve_out amount_out fee : F) → F
  constant_product_input_needed reserve_in reserve_out amount_out fee =
      let amount_in_after_fee = reserve_in ⊗ amount_out ⊘ (reserve_out ⊖ amount_out) in
      if reserve_in ≤? nought
        || (reserve_out ≤? nought || (amount_out ≤? nought || reserve_out ≤? amount_out))
      then f.inf
      else amount_in_after_fee ⊘ (f.lit 1 0 ⊖ fee)

  -- Within one tick.
  unfoldable pub concentrated_liquidity_output :
      (sqrt_price_x96 liquidity amount_in fee : F) → (zero_for_one : Bool) → F
  concentrated_liquidity_output sqrt_price_x96 liquidity amount_in fee zero_for_one =
      let amount_in_after_fee = amount_in ⊗ (f.lit 1 0 ⊖ fee) in
      let sqrt_price = sqrt_price_x96 ⊘ f.lit 79228162514264337593543950336 0 in
      let down = (liquidity ⊗ sqrt_price) ⊘ (liquidity ⊕ amount_in_after_fee ⊗ sqrt_price) in
      let up = sqrt_price ⊕ amount_in_after_fee ⊘ liquidity in
      if liquidity ≤? nought || (amount_in ≤? nought || sqrt_price_x96 ≤? nought)
      then nought
      else (if zero_for_one
          then liquidity ⊗ (sqrt_price ⊖ down)
          else liquidity ⊗ (f.lit 1 0 ⊘ sqrt_price ⊖ f.lit 1 0 ⊘ up))

  -- A pool with a tick's liquidity and a root price is priced as one of concentrated liquidity.
  abbrev pub output_by : Option F → Option F → PoolState F → F → F
  output_by (some liquidity) (some sqrt_price_x96) pool amount =
      concentrated_liquidity_output sqrt_price_x96 liquidity amount pool.fee Bool.true
  output_by (some liquidity) none pool amount =
      constant_product_output pool.reserve_base pool.reserve_quote amount pool.fee
  output_by none root pool amount =
      constant_product_output pool.reserve_base pool.reserve_quote amount pool.fee

  unfoldable pub quote_pool_output : PoolState F → F → F
  unfolding concentrated_liquidity_output constant_product_output
  quote_pool_output pool amount_in_base =
      output_by pool.tick_liquidity pool.sqrt_price_x96 pool amount_in_base

  abbrev pub input_by : Option F → Option F → PoolState F → F → F
  input_by (some liquidity) (some sqrt_price_x96) pool amount = f.inf
  input_by (some liquidity) none pool amount =
      constant_product_input_needed pool.reserve_quote pool.reserve_base amount pool.fee
  input_by none root pool amount =
      constant_product_input_needed pool.reserve_quote pool.reserve_base amount pool.fee

  unfoldable pub quote_pool_input_for_base_out : PoolState F → F → F
  unfolding constant_product_input_needed
  quote_pool_input_for_base_out pool amount_out_base =
      input_by pool.tick_liquidity pool.sqrt_price_x96 pool amount_out_base
