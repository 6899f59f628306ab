-- ===== src/Risk/Manager/Gate.antt =====
-- What `can_trade` decides.
use crypto_arb_engine.Prelude.{
  ℕ, ◌<◌, ◌≡◌, refl, ◌↔◌, true, false, none, some, List, [], ◌∷◌, arith, All, all,
}
use crypto_arb_engine.Prelude.Dict.{string_key, get}
use crypto_arb_engine.Float.{Float, ◌⊕◌, ◌<?◌, ◌≤?◌, nought, abs}
use crypto_arb_engine.Core.Types.{Leg, Opportunity}
use crypto_arb_engine.Risk.Limits.{strategy_capital_limit, venue_exposure_limit}
use crypto_arb_engine.Risk.Manager.Defs.{
  RiskManager, roll_day_if_needed, halted, leg_fits, strategy_fits, can_trade,
}

module _ {F : Type 0} ⦃f : Float F⦄ where
  -- No circuit breaker is open.
  pub record IsRunning (rm : RiskManager F) : Type 0 where
    pub not_stopped : rm.limits.emergency_stop ≡ false
    pub loss_within : rm.daily_pnl_usd ≤? f.neg (abs rm.limits.daily_loss_limit_usd) ≡ false
    pub trades_left : rm.daily_trade_count < rm.limits.max_trades_per_day
    pub failures_within : rm.consecutive_failures < rm.limits.max_consecutive_failures

  -- Neither the strategy's cap nor the cap of any leg's venue would be exceeded.
  pub record HasRoom (rm : RiskManager F) (o : Opportunity F) : Type 0 where
    pub strategy_room :
        strategy_capital_limit rm.limits o.strategy
          <? get nought o.strategy rm.strategy_deployed_usd ⊕ o.max_size_usd
        ≡ false
    pub venue_room :
        All
          (λ (l : Leg F).
            venue_exposure_limit rm.limits l.venue_id
              <? get nought l.venue_id rm.venue_deployed_usd ⊕ o.max_size_usd
            ≡ false)
          o.legs

  halted_iff : (rm : RiskManager F) → (halted rm ≡ false) ↔ IsRunning rm
  unfolding halted
  halted_iff rm = ground arith

  venues_iff :
      (rm : RiskManager F) (o : Opportunity F) (legs : List (Leg F))
      → (all (leg_fits rm o) legs ≡ true)
        ↔ All
            (λ (l : Leg F).
              venue_exposure_limit rm.limits l.venue_id
                <? get nought l.venue_id rm.venue_deployed_usd ⊕ o.max_size_usd
              ≡ false)
            legs
  unfolding leg_fits
  venues_iff rm o [] = (λ _. tt, λ _. refl)
  venues_iff rm o (l ∷ legs) = let ih = venues_iff rm o legs in ground (arith, ih)

  -- `can_trade` passes an opportunity exactly when, after the day is rolled, no circuit breaker is open
  -- and every cap has room; with no opportunity it passes exactly when no breaker is open. It changes
  -- the manager only by rolling the day.
  pub can_trade_iff :
      (today : ℕ) (o : Opportunity F) (rm : RiskManager F)
      → let rolled = roll_day_if_needed today rm in
        (((can_trade today (some o) rm).1 ≡ true) ↔ (IsRunning rolled × HasRoom rolled o))
        × (((can_trade today none rm).1 ≡ true) ↔ IsRunning rolled)
        × ((can_trade today (some o) rm).0 ≡ rolled)
  unfolding can_trade strategy_fits
  can_trade_iff today o rm =
      let rolled = roll_day_if_needed today rm in
      let h = halted_iff rolled in
      let v = venues_iff rolled o o.legs in
      (
        (
          λ e. (
            h.0 (ground arith),
            record { strategy_room = ground arith; venue_room = v.0 (ground arith) },
          ),
          λ p. ground (arith, h.1 p.0, v.1 p.1.venue_room, p.1.strategy_room),
        ),
        (λ e. h.0 (ground arith), λ p. ground (arith, h.1 p)),
        refl,
      )
