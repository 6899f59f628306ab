-- ===== src/Risk/Manager/Counters.antt =====
-- The kill switches: the manual stop, and the count of failures in a row.
use crypto_arb_engine.Prelude.{
  ℕ, ◌+◌, ◌≤◌, ◌≡◌, refl, ◌∙◌, Bool, true, false, Option, List, [], ◌∷◌, arith, length,
  if◌then◌else◌,
}
use crypto_arb_engine.Float.{Float}
use crypto_arb_engine.Core.Types.{Opportunity}
use crypto_arb_engine.Risk.Manager.Defs.{
  RiskManager, roll_day_if_needed, halted, can_trade, commit, release, release_uncommitted,
  record_counters, record_result, trigger_emergency_stop,
}

-- The calls that the engine makes on a manager between two uses of the stop.
pub data Call (F : Type 0) : Type 0 where
  check : ℕ → Option (Opportunity F) → Call F
  take give_back : Opportunity F → Call F
  finish : ℕ → Opportunity F → F → Bool → Call F

module _ {F : Type 0} ⦃f : Float F⦄ where
  unfoldable pub run_call : Call F → RiskManager F → RiskManager F
  run_call (check today o) rm = (can_trade today o rm).0
  run_call (take o) rm = commit o rm
  run_call (give_back o) rm = release_uncommitted o rm
  run_call (finish today o pnl success) rm = record_result today o pnl success rm

  unfoldable pub run_calls : List (Call F) → RiskManager F → RiskManager F
  unfolding run_call
  run_calls [] rm = rm
  run_calls (c ∷ calls) rm = run_calls calls (run_call c rm)

  roll-limits : (today : ℕ) (rm : RiskManager F) → (roll_day_if_needed today rm).limits ≡ rm.limits
  unfolding roll_day_if_needed
  roll-limits today rm = ground arith

  record_result-limits :
      (today : ℕ) (o : Opportunity F) (pnl : F) (ok : Bool) (rm : RiskManager F)
      → (record_result today o pnl ok rm).limits ≡ rm.limits
  unfolding record_result record_counters release
  record_result-limits today o pnl ok rm = roll-limits today rm

  run_call-limits : (c : Call F) (rm : RiskManager F) → (run_call c rm).limits ≡ rm.limits
  unfolding run_call can_trade commit release_uncommitted release
  run_call-limits (check today o) rm = roll-limits today rm
  run_call-limits (take o) rm = refl
  run_call-limits (give_back o) rm = refl
  run_call-limits (finish today o pnl ok) rm = record_result-limits today o pnl ok rm

  run_calls-limits :
      (calls : List (Call F)) (rm : RiskManager F) → (run_calls calls rm).limits ≡ rm.limits
  unfolding run_calls
  run_calls-limits [] rm = refl
  run_calls-limits (c ∷ calls) rm = run_calls-limits calls (run_call c rm) ∙ run_call-limits c rm

  -- After the emergency stop `can_trade` passes nothing, on whatever day and after whatever checks,
  -- commitments, releases and results.
  pub emergency_stop_halts :
      (calls : List (Call F)) (today : ℕ) (o : Option (Opportunity F)) (rm : RiskManager F)
      → (can_trade today o (run_calls calls (trigger_emergency_stop rm))).1 ≡ false
  unfolding can_trade halted trigger_emergency_stop
  emergency_stop_halts calls today o rm =
      let stopped = record rm { limits = record (rm.limits) { emergency_stop = true } } in
      rw (roll-limits today (run_calls calls stopped), run_calls-limits calls stopped)

  -- Failed trades one after another, each with its day, opportunity and PnL.
  unfoldable pub fail_all : List (ℕ × Opportunity F × F) → RiskManager F → RiskManager F
  fail_all [] rm = rm
  fail_all ((today, o, pnl) ∷ rest) rm = fail_all rest (record_result today o pnl false rm)

  roll-failures :
      (today : ℕ) (rm : RiskManager F)
      → (roll_day_if_needed today rm).consecutive_failures ≡ rm.consecutive_failures
  unfolding roll_day_if_needed
  roll-failures today rm = ground arith

  record_result-failures :
      (today : ℕ) (o : Opportunity F) (pnl : F) (ok : Bool) (rm : RiskManager F)
      → (record_result today o pnl ok rm).consecutive_failures
        ≡ (if ok then 0 else rm.consecutive_failures + 1)
  unfolding record_result record_counters release
  record_result-failures today o pnl ok rm = rw (roll-failures today rm)

  fail_all-failures :
      (fails : List (ℕ × Opportunity F × F)) (rm : RiskManager F)
      → (fail_all fails rm).consecutive_failures ≡ rm.consecutive_failures + length fails
  unfolding fail_all
  fail_all-failures [] rm = omega arith
  fail_all-failures ((today, o, pnl) ∷ rest) rm = omega (
    arith,
    fail_all-failures rest (record_result today o pnl false rm),
    record_result-failures today o pnl false rm,
  )

  fail_all-limits :
      (fails : List (ℕ × Opportunity F × F)) (rm : RiskManager F)
      → (fail_all fails rm).limits ≡ rm.limits
  unfolding fail_all
  fail_all-limits [] rm = refl
  fail_all-limits ((today, o, pnl) ∷ rest) rm =
      fail_all-limits rest (record_result today o pnl false rm)
      ∙ record_result-limits today o pnl false rm

  -- As many failed trades in a row as the limit allows halt trading, also across days, and one
  -- success after them sets the count back to zero.
  pub failures_halt :
      (fails : List (ℕ × Opportunity F × F)) (today : ℕ) (o : Option (Opportunity F))
      (rm : RiskManager F)
      → rm.limits.max_consecutive_failures ≤ length fails
      → ((can_trade today o (fail_all fails rm)).1 ≡ false)
        × ((day : ℕ) (p : Opportunity F) (pnl : F)
            → (record_result day p pnl true (fail_all fails rm)).consecutive_failures ≡ 0)
  unfolding can_trade halted
  failures_halt fails today o rm h =
      let failed = fail_all fails rm in
      (
        rw (roll-limits today failed, roll-failures today failed, fail_all-limits fails rm)
            (ground (arith, fail_all-failures fails rm)),
        λ day p pnl. record_result-failures day p pnl true failed,
      )
