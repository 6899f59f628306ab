-- ===== src/Tests/Risk.antt =====
-- The risk manager at concrete inputs.
use crypto_arb_engine.Prelude.{◌≡◌, refl, ◌↔◌, ◌⊎◌, ℕ, true, false, none, some, [], ◌∷◌, arith}
use crypto_arb_engine.Prelude.Dict.{lookup}
use crypto_arb_engine.Prelude.Int.{ℤ, pos}
use crypto_arb_engine.Float.{◌<?◌, nought}
use crypto_arb_engine.Float.Ints.{int_float, int-IsOrdered, int-IsRounded, int-IsExact}
use crypto_arb_engine.Core.Types.{Opportunity}
use crypto_arb_engine.Risk.Manager.{
  can_trade, roll_day_if_needed, commit, release, record_result, trigger_emergency_stop,
  size_with_depth_check,
}
use crypto_arb_engine.Risk.Manager.Gate.{IsRunning, HasRoom, can_trade_iff}
use crypto_arb_engine.Risk.Manager.Counters.{
  Call, run_calls, emergency_stop_halts, fail_all, failures_halt,
}
use crypto_arb_engine.Risk.Manager.Deployed.{IsFunded, SameDeployed, release-commit}
use crypto_arb_engine.Risk.Manager.Sized.{MeetsMinimums, size_with_depth_check_bounds}
use crypto_arb_engine.Tests.Data.{spread, manager, no_books, no_venues}

can_trade_iff_example :
    let rolled = roll_day_if_needed 8 manager in
    (((can_trade 8 (some spread) manager).1 ≡ true) ↔ (IsRunning rolled × HasRoom rolled spread))
    × (((can_trade 8 none manager).1 ≡ true) ↔ IsRunning rolled)
    × ((can_trade 8 (some spread) manager).0 ≡ rolled)
can_trade_iff_example = can_trade_iff 8 spread manager

manager-IsFunded : IsFunded int-IsOrdered int-IsRounded int-IsExact manager
unfolding lookup
manager-IsFunded = record { strategies_nonneg = λ s. refl; venues_nonneg = λ v. refl }

release-commit_example :
    SameDeployed int-IsOrdered int-IsRounded int-IsExact
      (release spread (commit spread manager))
      manager
release-commit_example =
    release-commit int-IsOrdered int-IsRounded int-IsExact spread manager refl manager-IsFunded

emergency_stop_halts_example :
    (can_trade 9 none (run_calls (Call.take spread ∷ []) (trigger_emergency_stop manager))).1
    ≡ false
emergency_stop_halts_example = emergency_stop_halts (Call.take spread ∷ []) 9 none manager

failures_halt_example :
    let failed = fail_all ((7, spread, pos 0) ∷ (8, spread, pos 0) ∷ []) manager in
    ((can_trade 9 none failed).1 ≡ false)
    × ((day : ℕ) (p : Opportunity ℤ) (pnl : ℤ)
        → (record_result day p pnl true failed).consecutive_failures ≡ 0)
failures_halt_example =
    failures_halt ((7, spread, pos 0) ∷ (8, spread, pos 0) ∷ []) 9 none manager (ground arith)

size_with_depth_check_bounds_example :
    let size = size_with_depth_check no_venues manager spread no_books (pos 0) in
    (spread.max_size_usd <? size ≡ false)
    × (manager.limits.max_notional_per_trade_usd <? size ≡ false)
    × ((size ≡ nought) ⊎ MeetsMinimums no_venues spread size)
size_with_depth_check_bounds_example =
    size_with_depth_check_bounds int-IsOrdered no_venues manager spread no_books (pos 0) refl refl
