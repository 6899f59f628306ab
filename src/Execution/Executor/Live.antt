-- ===== src/Execution/Executor/Live.antt =====
-- What a live trade records, by how its legs went.
use crypto_arb_engine.Prelude.{
  ◌≡◌, refl, ap, ℕ, ◌+◌, inl, inr, Bool, true, false, none, some, List, [], ◌∷◌, ◌++◌, String,
  Bool-cases, if◌then◌else◌, All, Any, all, arith,
}
use crypto_arb_engine.Float.{Float, nought}
use crypto_arb_engine.Core.Types.{Mode, Leg, Opportunity}
use crypto_arb_engine.Risk.Manager.{
  RiskManager, record_result, record_counters, release, roll_day_if_needed,
}
use crypto_arb_engine.Execution.Reconciler.{LegResult}
use crypto_arb_engine.Execution.Reconciler.Plans.{check_lem}
use crypto_arb_engine.Execution.Executor.Defs.{
  World, Outcome, TradeLogEntry, Executor, execute_leg, fire, estimate_pnl_usd, log_live,
  live_entry,
}

module _ {F : Type 0} ⦃f : Float F⦄ (w : World F) (size_usd : F) where
  abbrev pub Placed : Leg F → Type 0
  Placed leg = execute_leg w size_usd leg ≡ Outcome.placed

  abbrev pub Raised : Leg F → Type 0
  Raised leg = (error : String) × (execute_leg w size_usd leg ≡ Outcome.raised error)

  fire-Placed :
      (legs : List (Leg F)) → All Placed legs → All (λ r. r.success ≡ true) (fire w size_usd legs)
  unfolding fire
  fire-Placed [] h = h
  fire-Placed (l ∷ legs) (h, hs) = (rw h refl, fire-Placed legs hs)

  fire-Raised :
      (legs : List (Leg F)) → All Raised legs → All (λ r. r.success ≡ false) (fire w size_usd legs)
  unfolding fire
  fire-Raised [] h = h
  fire-Raised (l ∷ legs) (h, hs) = (rw h.1 refl, fire-Raised legs hs)

  fire_some-Placed :
      (legs : List (Leg F)) → Any Placed legs → Any (λ r. r.success ≡ true) (fire w size_usd legs)
  unfolding fire
  fire_some-Placed [] a = elim a [ ]
  fire_some-Placed (l ∷ legs) (Any.here h) = Any.here (rw h refl)
  fire_some-Placed (l ∷ legs) (Any.there a) = Any.there (fire_some-Placed legs a)

  fire_some-Raised :
      (legs : List (Leg F)) → Any Raised legs → Any (λ r. r.success ≡ false) (fire w size_usd legs)
  unfolding fire
  fire_some-Raised [] a = elim a [ ]
  fire_some-Raised (l ∷ legs) (Any.here h) = Any.here (rw h.1 refl)
  fire_some-Raised (l ∷ legs) (Any.there a) = Any.there (fire_some-Raised legs a)

module _ {F : Type 0} ⦃f : Float F⦄ where
  all-true :
      (rs : List (LegResult F)) → All (λ r. r.success ≡ true) rs → all (λ r. r.success) rs ≡ true
  all-true [] h = refl
  all-true (r ∷ rs) (h, hs) = rw h (all-true rs hs)

  one_false :
      (rs : List (LegResult F)) → Any (λ r. r.success ≡ false) rs → all (λ r. r.success) rs ≡ false
  one_false [] a = elim a [ ]
  one_false (r ∷ rs) (Any.here h) = rw h refl
  one_false (r ∷ rs) (Any.there a) = elim (Bool-cases r.success) [
    | inl e ↦ rw e (one_false rs a)
    | inr e ↦ rw e refl
  ]

  -- What a live trade leaves: its entry, the open incidents, and the counters of the risk manager.
  pub record Leaves (w : World F) (o : Opportunity F) (size_usd pnl : F) (ok : Bool)
      (ex after : Executor F) : Type 0 where
    pub entry : TradeLogEntry F
    pub logged : after.trade_log ≡ ex.trade_log ++ (entry ∷ [])
    pub of_opportunity : (entry.opportunity ≡ o) × (entry.mode ≡ Mode.live)
    pub profit : entry.pnl_usd ≡ (if ok then some pnl else none)
    pub remark : entry.note ≡ (if ok then "" else "PARTIAL_FILL_RECONCILIATION_REQUIRED")
    pub manager : after.risk_manager ≡ record_result w.later o pnl ok (w.meanwhile ex.risk_manager)
    pub failures :
        after.risk_manager.consecutive_failures
        ≡ (if ok then 0 else (w.meanwhile ex.risk_manager).consecutive_failures + 1)

  roll-failures :
      (today : ℕ) (rm : RiskManager F)
      → (roll_day_if_needed today rm).consecutive_failures ≡ rm.consecutive_failures
  unfolding roll_day_if_needed
  roll-failures today rm = ground arith

  log_live-Leaves :
      (w : World F) (o : Opportunity F) (size_usd net_profit_pct : F) (ok : Bool) (ex : Executor F)
      → all (λ r. r.success) (fire w size_usd o.legs) ≡ ok
      → Leaves w o size_usd
          (if ok then estimate_pnl_usd size_usd net_profit_pct else nought)
          ok
          ex
          (log_live w o size_usd net_profit_pct ex)
  unfolding log_live record_result record_counters release
  log_live-Leaves w o size_usd pct ok ex h = record {
    entry = live_entry o (if ok then estimate_pnl_usd size_usd pct else nought) ok;
    logged = rw h refl;
    of_opportunity = (refl, refl);
    profit = refl;
    remark = refl;
    manager = rw h refl;
    failures = rw (h, roll-failures w.later (w.meanwhile ex.risk_manager)) refl;
  }

  -- If every leg is placed, the estimated profit is booked, the failures in a row are reset and no
  -- incident is opened. If one raises, no profit is booked, the entry has none and carries the note of
  -- a partial fill, and the failures in a row go up; an incident with every leg's result is opened
  -- exactly if another leg was placed.
  pub log_live_lem :
      (w : World F) (o : Opportunity F) (size_usd net_profit_pct : F) (ex : Executor F)
      → let after = log_live w o size_usd net_profit_pct ex in
        let pnl = estimate_pnl_usd size_usd net_profit_pct in
        (All (Placed w size_usd) o.legs
          → Leaves w o size_usd pnl true ex after × (after.incidents ≡ ex.incidents))
        × (All (Raised w size_usd) o.legs
            → Any (Raised w size_usd) o.legs
            → Leaves w o size_usd nought false ex after × (after.incidents ≡ ex.incidents))
        × (Any (Placed w size_usd) o.legs
            → Any (Raised w size_usd) o.legs
            → Leaves w o size_usd nought false ex after
              × (after.incidents ≡ ex.incidents ++ ((o, fire w size_usd o.legs) ∷ [])))
  unfolding log_live
  log_live_lem w o size pct ex =
      let rs = fire w size o.legs in
      let checked = check_lem ex.incidents o rs in
      (
        λ placed. (
          log_live-Leaves w o size pct true ex (all-true rs (fire-Placed w size o.legs placed)),
          ap (λ p. p.0) (checked.0 (fire-Placed w size o.legs placed)),
        ),
        λ raised one. (
          log_live-Leaves w o size pct false ex (one_false rs (fire_some-Raised w size o.legs one)),
          ap (λ p. p.0) (checked.1 (fire-Raised w size o.legs raised)),
        ),
        λ placed raised. (
          log_live-Leaves w o size pct false ex
              (one_false rs (fire_some-Raised w size o.legs raised)),
          ap (λ p. p.0)
              (checked.2 (fire_some-Placed w size o.legs placed)
                (fire_some-Raised w size o.legs raised)),
        ),
      )
