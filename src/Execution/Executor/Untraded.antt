-- ===== src/Execution/Executor/Untraded.antt =====
-- An opportunity that never passes the check of profitability is not traded.
use crypto_arb_engine.Prelude.{◌≡◌, refl, inl, inr, false, some, Bool-cases}
use crypto_arb_engine.Float.{Float, ◌≤?◌, nought}
use crypto_arb_engine.Core.Types.{Mode, Opportunity}
use crypto_arb_engine.Core.Book.{BookStore}
use crypto_arb_engine.Risk.Manager.{
  can_trade, roll_day_if_needed, commit, size_with_depth_check, reverify_profitability,
}
use crypto_arb_engine.Execution.Executor.Defs.{
  World, Executor, reject, with_size, handle_paper, handle_live, log_paper, log_live,
  finally_release, dispatch, handle, on_manager,
}

module _ {F : Type 0} ⦃f : Float F⦄ (w : World F) (o : Opportunity F)
    (fails : (store : BookStore F) (size_usd : F)
      → (reverify_profitability o store size_usd).0 ≡ false) where
  with_size-untraded :
      (trade : F → F → Executor F → Executor F) (ex : Executor F)
      → (finally_release o (with_size w o trade ex)).trade_log ≡ ex.trade_log
  unfolding with_size finally_release reject
  with_size-untraded trade ex =
      let size = size_with_depth_check w.venues ex.risk_manager o ex.book_store (f.lit 1 1) in
      elim (Bool-cases (size ≤? nought)) [
        | inl e ↦ rw e refl
        | inr e ↦ rw (e, fails ex.book_store size) refl
      ]

  dispatch-untraded :
      (mode : Mode) (ex : Executor F) → (dispatch w o mode ex).trade_log ≡ ex.trade_log
  unfolding dispatch handle_paper handle_live
  dispatch-untraded Mode.monitor ex = refl
  dispatch-untraded Mode.paper ex = with_size-untraded (log_paper w o) (on_manager (commit o) ex)
  dispatch-untraded Mode.live ex = with_size-untraded (log_live w o) (on_manager (commit o) ex)

  pub handle-untraded : (ex : Executor F) → (handle w o ex).trade_log ≡ ex.trade_log
  unfolding handle reject can_trade
  handle-untraded ex = elim (Bool-cases (can_trade w.today (some o) ex.risk_manager).1) [
    | inl e ↦ rw e (dispatch-untraded ex.mode (on_manager (roll_day_if_needed w.today) ex))
    | inr e ↦ rw e refl
  ]
