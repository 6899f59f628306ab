-- ===== src/Execution/Executor/Capital.antt =====
-- `Executor.handle` and the capital that the risk manager has deployed.
use crypto_arb_engine.Prelude.{◌≡◌, inl, inr, Bool, true, some, Bool-cases}
use crypto_arb_engine.Float.{Float, ◌≤?◌, nought, IsNonneg, IsOrdered, IsRounded, IsExact}
use crypto_arb_engine.Core.Types.{Mode, Opportunity}
use crypto_arb_engine.Risk.Manager.{
  RiskManager, can_trade, commit, release, release_uncommitted, size_with_depth_check,
  reverify_profitability,
}
use crypto_arb_engine.Risk.Manager.Deployed.{
  IsIdle, released-IsIdle, roll_day-IsIdle, release_same-IsIdle, release-commit-IsIdle,
}
use crypto_arb_engine.Execution.Executor.Defs.{
  World, Executor, reject, with_size, handle_paper, handle_live, log_paper, log_live,
  finally_release, dispatch, handle, on_manager,
}

module _ {F : Type 0} ⦃f : Float F⦄ (ordered : IsOrdered F) (rounded : IsRounded F)
    (exact : IsExact F) where
  -- Other tasks leave the deployed capital alone while orders are under way.
  pub record KeepsDeployed (w : World F) : Type 0 where
    pub keeps_strategies :
        (rm : RiskManager F) → (w.meanwhile rm).strategy_deployed_usd ≡ rm.strategy_deployed_usd
    pub keeps_venues :
        (rm : RiskManager F) → (w.meanwhile rm).venue_deployed_usd ≡ rm.venue_deployed_usd

  -- The manager is idle, after the release that `finally` makes.
  abbrev Settles : Opportunity F → Executor F × Bool → Type 0
  Settles o r = IsIdle ordered rounded exact (finally_release o r).risk_manager

  -- The steps that `_handle_paper` and `_handle_live` share settle if the trade does.
  with_size-Settles :
      (w : World F) (o : Opportunity F) (trade : F → F → Executor F → Executor F) (ex : Executor F)
      → IsIdle ordered rounded exact (release o ex.risk_manager)
      → ((size pct : F) → IsIdle ordered rounded exact (trade size pct ex).risk_manager)
      → Settles o (with_size w o trade ex)
  unfolding with_size finally_release reject release_uncommitted
  with_size-Settles w o trade ex h t =
      let size = size_with_depth_check w.venues ex.risk_manager o ex.book_store (f.lit 1 1) in
      let checked = reverify_profitability o ex.book_store size in
      elim (Bool-cases (size ≤? nought)) [
        | inl e ↦ rw e h
        | inr e ↦
            rw e
              (elim (Bool-cases (checked.0)) [ inl k ↦ rw k (t size checked.1) | inr k ↦ rw k h ])
      ]

  dispatch-IsIdle :
      (w : World F) (o : Opportunity F) (mode : Mode) (ex : Executor F)
      → IsNonneg o.max_size_usd
      → KeepsDeployed w
      → IsIdle ordered rounded exact ex.risk_manager
      → IsIdle ordered rounded exact (dispatch w o mode ex).risk_manager
  unfolding dispatch handle_paper handle_live log_paper log_live
  dispatch-IsIdle w o Mode.monitor ex ha keeps h = h
  dispatch-IsIdle w o Mode.paper ex ha keeps h =
      let held = on_manager (commit o) ex in
      let released = release-commit-IsIdle ordered rounded exact o ex.risk_manager ha h in
      with_size-Settles w o (log_paper w o) held released (λ size pct.
        released-IsIdle ordered rounded exact w.today o _ true held.risk_manager ha released)
  dispatch-IsIdle w o Mode.live ex ha keeps h =
      let held = on_manager (commit o) ex in
      let released = release-commit-IsIdle ordered rounded exact o ex.risk_manager ha h in
      with_size-Settles w o (log_live w o) held released (λ size pct.
        released-IsIdle ordered rounded exact w.later o _ _ (w.meanwhile held.risk_manager) ha (
          release_same-IsIdle ordered rounded exact o (w.meanwhile held.risk_manager)
            held.risk_manager (keeps.keeps_strategies _) (keeps.keeps_venues _) released))

  -- Where sums are exact and other tasks leave the deployed capital alone, handling an opportunity
  -- of a size that is not negative, in any mode, declined, skipped, traded or partly filled, on one
  -- day or across midnight, leaves no capital deployed if none was before.
  pub handle-IsIdle :
      (w : World F) (o : Opportunity F) (ex : Executor F)
      → IsNonneg o.max_size_usd
      → KeepsDeployed w
      → IsIdle ordered rounded exact ex.risk_manager
      → IsIdle ordered rounded exact (handle w o ex).risk_manager
  unfolding handle can_trade reject
  handle-IsIdle w o ex ha keeps h =
      let idle = roll_day-IsIdle ordered rounded exact w.today ex.risk_manager h in
      elim (Bool-cases (can_trade w.today (some o) ex.risk_manager).1) [
        | inl e ↦ rw e (dispatch-IsIdle w o ex.mode _ ha keeps idle)
        | inr e ↦ rw e idle
      ]
