-- ===== src/Config/Venues.antt =====
-- config/venues.py: fee and minimum lookups over the static tables and what connected venues report.
-- The rows of CEX_VENUES and DEX_VENUES are arguments, so every theorem holds for any tables.
pub mod Lookup
use crypto_arb_engine.Prelude.{
  Bool, true, false, Option, none, some, List, [], ◌∷◌, ◌++◌, map, String, if◌then◌else◌, ◌≡◌, ◌↔◌,
  not, arith,
}
use crypto_arb_engine.Prelude.Dict.{Dict, Key, string_key, pair_key, lookup, set, remove, contains}
use crypto_arb_engine.Float.{Float, min}

pub record CexVenue (F : Type 0) : Type 0 where
  pub taker_fee : F
  pub maker_fee : F
  pub withdrawal_fees : Dict String F
  pub min_order_usd : F

pub record DexVenue (F : Type 0) : Type 0 where
  pub swap_fee_tiers : List F
  pub min_order_usd : F

-- A venue with one of its symbols, or with `none` for the venue-wide rate.
abbrev pub FeeKey : Type 0
FeeKey = String × Option String

abbrev pub same_fee_key : FeeKey → FeeKey → Bool
same_fee_key (v, none) (w, none) = string_key.same v w
same_fee_key (v, some s) (w, some t) = pair_key.same (v, s) (w, t)
same_fee_key _ _ = false

pub same_fee_key_iff : (a b : FeeKey) → (same_fee_key a b ≡ true) ↔ (a ≡ b)
same_fee_key_iff (v, none) (w, none) = ground (arith, string_key.same_iff v w)
same_fee_key_iff (v, some s) (w, some t) =
    ground (arith, string_key.same_iff v w, string_key.same_iff s t)
same_fee_key_iff (v, none) (w, some t) = ground arith
same_fee_key_iff (v, some s) (w, none) = ground arith

instance abbrev pub fee_key : Key FeeKey
fee_key = record { same = same_fee_key; same_iff = same_fee_key_iff }

-- The module's tables: static rows, `_LIVE_TAKER_FEES`, `_LIVE_MAKER_FEES`, and the two sets of
-- blocked transfers, as dicts from (venue, asset) to nothing.
pub record Venues (F : Type 0) : Type 0 where
  pub cex : Dict String (CexVenue F)
  pub dex : Dict String (DexVenue F)
  pub live_taker : Dict FeeKey F
  pub live_maker : Dict FeeKey F
  pub withdraw_blocked : Dict (String × String) (Unit {0})
  pub deposit_blocked : Dict (String × String) (Unit {0})

-- One direction of `register_transfer_status`; `none` means that the venue did not say.
unfoldable pub mark :
    Option Bool
    → String × String
    → Dict (String × String) (Unit {0})
    → Dict (String × String) (Unit {0})
mark none key blocked = blocked
mark (some false) key blocked = set key tt blocked
mark (some true) key blocked = remove key blocked

abbrev pub or_else {ℓ} : {A : Type ℓ} → Option A → Option A → Option A
or_else none b = b
or_else (some a) b = some a

module _ {F : Type 0} where
  unfoldable pub register_transfer_status :
      String → String → Option Bool → Option Bool → Venues F → Venues F
  unfolding mark
  register_transfer_status venue_id asset can_withdraw_asset can_deposit_asset t = record t {
    withdraw_blocked = mark can_withdraw_asset (venue_id, asset) t.withdraw_blocked;
    deposit_blocked = mark can_deposit_asset (venue_id, asset) t.deposit_blocked;
  }

  unfoldable pub clear_transfer_status : Venues F → Venues F
  clear_transfer_status t = record t { withdraw_blocked = []; deposit_blocked = [] }

  unfoldable pub can_withdraw : Venues F → String → String → Bool
  can_withdraw t venue_id asset = not (contains (venue_id, asset) t.withdraw_blocked)

  unfoldable pub can_deposit : Venues F → String → String → Bool
  can_deposit t venue_id asset = not (contains (venue_id, asset) t.deposit_blocked)

  unfoldable pub put_rate : FeeKey → Option F → Dict FeeKey F → Dict FeeKey F
  put_rate key none table = table
  put_rate key (some rate) table = set key rate table

  unfoldable pub register_live_fees :
      String → Option String → Option F → Option F → Venues F → Venues F
  unfolding put_rate
  register_live_fees venue_id symbol taker maker t = record t {
    live_taker = put_rate (venue_id, symbol) taker t.live_taker;
    live_maker = put_rate (venue_id, symbol) maker t.live_maker;
  }

  unfoldable pub clear_live_fees : Venues F → Venues F
  clear_live_fees t = record t { live_taker = []; live_maker = [] }

  -- `_live_fee`
  unfoldable pub live_fee : Dict FeeKey F → String → Option String → Option F
  live_fee table venue_id none = lookup (venue_id, none) table
  live_fee table venue_id (some symbol) =
      or_else (lookup (venue_id, some symbol) table) (lookup (venue_id, none) table)

  module _ ⦃f : Float F⦄ where
    -- `min` of the tiers, if there are any.
    unfoldable pub min_tier : List F → Option F
    min_tier [] = none
    min_tier (x ∷ xs) = some (go x xs)
      where
        go : F → List F → F
        go best [] = best
        go best (y ∷ ys) = go (min best y) ys

    abbrev pub static_taker : Option (CexVenue F) → Option (DexVenue F) → F → F
    static_taker (some cex) dex fallback = cex.taker_fee
    static_taker none none fallback = fallback
    static_taker none (some dex) fallback = elim (min_tier dex.swap_fee_tiers) [
      | none ↦ fallback
      | some fee ↦ fee
    ]

    unfoldable pub taker_fee_for : Venues F → String → F → Option String → F
    taker_fee_for t venue_id fallback symbol = elim (live_fee t.live_taker venue_id symbol) [
      | some live ↦ live
      | none ↦ static_taker (lookup venue_id t.cex) (lookup venue_id t.dex) fallback
    ]

    abbrev pub static_maker : Option (CexVenue F) → F → F
    static_maker (some cex) taker = cex.maker_fee
    static_maker none taker = taker

    unfoldable pub maker_fee_for : Venues F → String → F → Option String → F
    maker_fee_for t venue_id fallback symbol = elim (live_fee t.live_maker venue_id symbol) [
      | some live ↦ live
      | none ↦ static_maker (lookup venue_id t.cex) (taker_fee_for t venue_id fallback symbol)
    ]

    abbrev pub static_minimum : Option (CexVenue F) → Option (DexVenue F) → F → F
    static_minimum (some cex) dex fallback = cex.min_order_usd
    static_minimum none (some dex) fallback = dex.min_order_usd
    static_minimum none none fallback = fallback

    -- With the default fallback of 10.0 USD.
    unfoldable pub min_order_usd_for : Venues F → String → F
    min_order_usd_for t venue_id =
        static_minimum (lookup venue_id t.cex) (lookup venue_id t.dex) (f.lit 10 0)
