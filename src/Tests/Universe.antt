-- ===== src/Tests/Universe.antt =====
-- The universe of symbols and the recorder at concrete inputs.
use mathlib.Core.List.{Perm}
use crypto_arb_engine.Prelude.{
  Any, arith, ◌≡◌, ◌↔◌, ℕ, ◌≤◌, some, List, [], ◌∷◌, ◌++◌, String, All, length,
}
use crypto_arb_engine.Prelude.Dict.{Dict, string_key}
use crypto_arb_engine.Prelude.Int.{ℤ, pos}
use crypto_arb_engine.Float.Ints.{int_float}
use crypto_arb_engine.Core.Types.{Mode}
use crypto_arb_engine.Config.Universe.{
  build_tradeable_symbols, quote_assets, all_base_assets, select_pollable_symbols, eligible,
  count_venues,
}
use crypto_arb_engine.Config.Universe.Listing.{
  IsTradeable, Holds, IsListed, build_tradeable_symbols_lem,
}
use crypto_arb_engine.Config.Universe.Ranking.{tier_place}
use crypto_arb_engine.Config.Universe.Budget.{listings, select_pollable_symbols_lem}
use crypto_arb_engine.Analytics.Recorder.{Call, calls, new_recorder}
use crypto_arb_engine.Analytics.Recorder.Tracking.{IsTracked}
use crypto_arb_engine.Analytics.Recorder.Written.{ids_of, ids_below, written, recorder_calls}
use crypto_arb_engine.Tests.Data.{spread}

abbrev markets : List String
markets = "BTC/USDT" ∷ "ETH/BTC" ∷ "XYZ/USDT" ∷ []

build_tradeable_symbols_lem_example :
    All
      (IsTradeable markets quote_assets all_base_assets)
      (build_tradeable_symbols markets quote_assets all_base_assets)
    × (Holds "ETH" "BTC" (build_tradeable_symbols markets quote_assets all_base_assets)
        ↔ IsListed markets quote_assets all_base_assets "ETH" "BTC")
build_tradeable_symbols_lem_example =
    build_tradeable_symbols_lem markets quote_assets all_base_assets "ETH" "BTC"

abbrev by_venue : Dict String (List String)
by_venue = ("alpha", markets) ∷ ("beta", "BTC/USDT" ∷ "ETH/BTC" ∷ []) ∷ []

select_pollable_symbols_lem_example :
    let chosen = select_pollable_symbols by_venue 1 2 in
    let eligibles = eligible 2 (count_venues by_venue []) in
    All (λ s. 2 ≤ listings s by_venue) chosen
    × ((s : String)
        → 1 ≤ listings s by_venue
        → 2 ≤ listings s by_venue
        → Any (λ x. x ≡ s) eligibles)
    × (length chosen ≤ 1)
    × ((rest : List String) × Perm (chosen ++ rest) eligibles
        × All (λ x. All (λ y. tier_place x ≤ tier_place y) rest) chosen
        × (◌≡◌ {A = ℕ} 0 0))
select_pollable_symbols_lem_example = select_pollable_symbols_lem by_venue 1 2

-- Two records with room for one, a result for the second, and a flush between.
abbrev session : List (Call ℤ)
session =
    Call.records spread
    ∷ Call.flushes 5
    ∷ Call.records spread
    ∷ Call.attaches 1 (pos 5) Mode.paper
    ∷ Call.checks 1 spread (pos 2) (some (pos 70))
    ∷ []

recorder_calls_example :
    let r = calls session (new_recorder 1 3) in
    IsTracked r × (ids_of (written r.parquet) ++ r.opportunity_buffer ≡ ids_below r.next_id)
recorder_calls_example = recorder_calls 1 3 session (omega arith, tt)
