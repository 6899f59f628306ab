-- ===== src/Core/Types.antt =====
-- core/types.py and the records of strategies/base.py: sides, modes, balances, legs, opportunities.
use crypto_arb_engine.Prelude.{Bool, true, false, Option, none, some, List, String, if◌then◌else◌}
use crypto_arb_engine.Float.{Float, ◌⊕◌, ◌⊖◌, ◌⊗◌, ◌⊘◌, ◌≤?◌, nought, max, hundred}
use text.Mathlib.Text.{◌==◌}

-- The texts that a leg's `side` takes: a `multi_leg` route also has transfers.
pub data Side : Type 0 where
  buy sell transfer : Side

abbrev pub is_buy : Side → Bool
is_buy Side.buy = true
is_buy _ = false

abbrev pub is_transfer : Side → Bool
is_transfer Side.transfer = true
is_transfer _ = false

pub data Mode : Type 0 where
  monitor paper live : Mode

-- The mode that a text names, `none` if it names none.
pub mode_of : String → Option Mode
mode_of s =
    if s == "monitor"
    then some Mode.monitor
    else (if s == "paper" then some Mode.paper else (if s == "live" then some Mode.live else none))

pub record Balance (F : Type 0) : Type 0 where
  pub venue_id : String
  pub asset : String
  pub free : F
  pub locked : F

pub record FundingRate (F : Type 0) : Type 0 where
  pub venue_id : String
  pub symbol : String
  pub rate : F
  pub interval_hours : F
  pub next_funding_ts : F

pub record FuturesQuote (F : Type 0) : Type 0 where
  pub venue_id : String
  pub symbol : String
  pub expiry_ts : F
  pub price : F
  pub spot_price : F

pub record Leg (F : Type 0) : Type 0 where
  pub venue_id : String
  pub symbol : String
  pub side : Side
  pub price : F
  pub size : F
  pub fee : F

-- What `Router` reserved for one leg: venue, asset, amount.
pub record Reservation (F : Type 0) : Type 0 where
  pub venue_id : String
  pub asset : String
  pub amount : F

-- Of `detail` only `_reservations` is read back by the program.
pub record Opportunity (F : Type 0) : Type 0 where
  pub strategy : String
  pub symbol : String
  pub legs : List (Leg F)
  pub gross_profit_pct : F
  pub net_profit_pct : F
  pub max_size_usd : F
  pub detected_at : F
  pub requires_prefunded_inventory : Bool
  pub is_atomic : Bool
  pub reservations : Option (List (Reservation F))

module _ {F : Type 0} ⦃f : Float F⦄ where
  -- `Balance.total`
  abbrev pub total : Balance F → F
  total b = b.free ⊕ b.locked

  -- `FundingRate.annualized_pct`
  pub annualized_pct : FundingRate F → F
  annualized_pct r =
      let periods_per_year = (f.lit 365 0 ⊗ f.lit 24 0) ⊘ r.interval_hours in
      r.rate ⊗ periods_per_year ⊗ hundred

  -- `FuturesQuote.days_to_expiry`, at the time `now`.
  pub days_to_expiry : F → FuturesQuote F → F
  days_to_expiry now q = max ((q.expiry_ts ⊖ now) ⊘ f.lit 86400 0) (f.lit 1 9)

  pub basis_pct : FuturesQuote F → F
  basis_pct q =
      if q.spot_price ≤? nought then nought else (q.price ⊖ q.spot_price) ⊘ q.spot_price ⊗ hundred

  pub annualized_basis_pct : F → FuturesQuote F → F
  annualized_basis_pct now q = basis_pct q ⊗ (f.lit 365 0 ⊘ days_to_expiry now q)

  -- `Strategy._passes_threshold`
  pub passes_threshold : F → F → Bool
  passes_threshold min_profit_pct net_profit_pct = min_profit_pct ≤? net_profit_pct
