-- ===== src/Strategies/Cycles/Unsized.antt =====
-- The legs of a cycle have no size, and the executor trades no opportunity whose legs have none.
use crypto_arb_engine.Prelude.{
  ◌≡◌, refl, Bool, true, false, List, [], ◌∷◌, map, String, All, All-imp, Bool-cases, inl, inr,
  if◌then◌else◌,
}
use crypto_arb_engine.Prelude.Dict.{Dict}
use crypto_arb_engine.Float.{Float, ◌<?◌, nought, IsOrdered}
use crypto_arb_engine.Core.Types.{Opportunity}
use crypto_arb_engine.Core.Graph.{Edge, profit_pct}
use crypto_arb_engine.Core.Market.{MarketState}
use crypto_arb_engine.Config.Venues.{Venues, CexVenue}
use crypto_arb_engine.Execution.Executor.{World, Executor, handle}
use crypto_arb_engine.Execution.Executor.Untraded.{handle-untraded}
use crypto_arb_engine.Risk.Manager.Unsized.{IsUnsized, reverify_profitability-unsized}
use crypto_arb_engine.Strategies.Gather.{concat_map-All, best_first-All}
use crypto_arb_engine.Strategies.Cycles.{
  CycleSettings, dedupe_by_stops, seen_before, stops_of, cycle_leg, price_of_edge,
}
use crypto_arb_engine.Strategies.Cycles.Triangular.{
  cycle_trade, cycles_from, scan_venue, triangular_scan,
}
use crypto_arb_engine.Strategies.Cycles.MultiLeg.{
  has_transfer, route_price, route_trade, multi_leg_scan,
}

module _ {F : Type 0} ⦃f : Float F⦄ where
  cycle_leg-size :
      (price : Edge F → F) (es : List (Edge F))
      → All (λ leg. leg.size ≡ nought) (map (λ e. cycle_leg (price e) e) es)
  cycle_leg-size price [] = tt
  cycle_leg-size price (e ∷ es) = (refl, cycle_leg-size price es)

  dedupe_by_stops-All {κ} :
      (P : Opportunity F → Type κ) (os : List (Opportunity F)) (seen : _)
      → All P os
      → All P (dedupe_by_stops os seen)
  unfolding dedupe_by_stops
  dedupe_by_stops-All P [] seen h = tt
  dedupe_by_stops-All P (o ∷ os) seen (p, ps) =
      elim (Bool-cases (seen_before (stops_of o.legs) seen)) [
        | inl k ↦ rw k (dedupe_by_stops-All P os seen ps)
        | inr k ↦ rw k (p, dedupe_by_stops-All P os (stops_of o.legs ∷ seen) ps)
      ]

  one_or_none :
      (b : Bool) (o : Opportunity F) → IsUnsized o → All IsUnsized (if b then [] else o ∷ [])
  one_or_none true o h = tt
  one_or_none false o h = (h, tt)

  module _ (ln exp : F → F) where
    triangular-IsUnsized :
        (cfg : CycleSettings F) (t : Venues F) (now : F) (m : MarketState F)
        → All IsUnsized (triangular_scan ln exp cfg t now m)
    unfolding triangular_scan scan_venue cycles_from cycle_trade
    triangular-IsUnsized cfg t now m = best_first-All IsUnsized _ (
        concat_map-All IsUnsized _ _ (λ v. dedupe_by_stops-All IsUnsized _ _ (
          concat_map-All IsUnsized _ _ (λ start. concat_map-All IsUnsized _ _ (λ c.
            one_or_none (profit_pct ln exp c <? cfg.min_profit_pct) _
              (cycle_leg-size price_of_edge c.edges))))))

    multi_leg-IsUnsized :
        (cfg : CycleSettings F) (cex : Dict String (CexVenue F)) (t : Venues F) (now : F)
        (m : MarketState F)
        → All IsUnsized (multi_leg_scan ln exp cfg cex t now m)
    unfolding multi_leg_scan route_trade
    multi_leg-IsUnsized cfg cex t now m = best_first-All IsUnsized _ (
        dedupe_by_stops-All IsUnsized _ _ (
          concat_map-All IsUnsized _ _ (λ start. concat_map-All IsUnsized _ _ (λ c.
            elim (Bool-cases (has_transfer ln exp c.edges)) [
              | inr k ↦ rw k tt
              | inl k ↦ rw k (
                  one_or_none (profit_pct ln exp c <? cfg.min_profit_pct) _
                    (cycle_leg-size (route_price ln exp) c.edges))
            ]))))

    -- Whatever the executor's state and mode and the venues' answers, handling an opportunity that the
    -- triangular or the multi-leg scan finds leaves the trade log as it is: their legs have no size, and
    -- the check of profitability rejects such an opportunity.
    pub cycles_untraded :
        IsOrdered F
        → (cfg : CycleSettings F) (cex : Dict String (CexVenue F)) (t : Venues F) (now : F)
          (m : MarketState F)
        → (w : World F) (ex : Executor F)
        → All (λ o. (handle w o ex).trade_log ≡ ex.trade_log) (triangular_scan ln exp cfg t now m)
          × All
              (λ o. (handle w o ex).trade_log ≡ ex.trade_log)
              (multi_leg_scan ln exp cfg cex t now m)
    cycles_untraded laws cfg cex t now m w ex =
        let untraded : (o : Opportunity F)
            → IsUnsized o
            → (handle w o ex).trade_log ≡ ex.trade_log =
          λ o h.
            handle-untraded w o (λ store size. reverify_profitability-unsized laws o store size h)
              ex in
        (
          All-imp _ untraded (triangular-IsUnsized cfg t now m),
          All-imp _ untraded (multi_leg-IsUnsized cfg cex t now m),
        )
