-- ===== src/Engine/Tick/Balances.antt =====
-- What one turn of the loop does to the balances and to the deployed capital.
use crypto_arb_engine.Prelude.{
  ◌≡◌, refl, ◌∙◌, ap, ℕ, suc, true, false, some, List, [], ◌∷◌, String, length, length-append, ltb,
  ◌⊎◌, inl, inr, All, Bool-cases, arith,
}
use crypto_arb_engine.Float.{Float, IsNonneg, IsOrdered, IsRounded, IsExact}
use crypto_arb_engine.Core.Types.{Reservation, Opportunity}
use crypto_arb_engine.Risk.Manager.Deployed.{IsIdle}
use crypto_arb_engine.Execution.Inventory.{Inventory}
use crypto_arb_engine.Execution.Inventory.Totals.{cell}
use crypto_arb_engine.Execution.Inventory.Solvent.{IsSolvent}
use crypto_arb_engine.Execution.Router.{settle_fill, release_unfilled}
use crypto_arb_engine.Execution.Router.Cells.{pays}
use crypto_arb_engine.Execution.Router.Select.{IsLocked}
use crypto_arb_engine.Execution.Router.Settle.{gains, settle_fill_moves, release_unfilled_restores}
use crypto_arb_engine.Execution.Executor.{World, handle}
use crypto_arb_engine.Execution.Executor.Trades.{Traded, handle-Traded}
use crypto_arb_engine.Execution.Executor.Capital.{KeepsDeployed, handle-IsIdle}
use crypto_arb_engine.Engine.Tick.{Engine, execute, execute_all}

module _ {F : Type 0} ⦃f : Float F⦄ (ordered : IsOrdered F) (rounded : IsRounded F)
    (exact : IsExact F) where
  execute-Traded :
      (w : World F) (o : Opportunity F) (e : Engine F)
      → Traded w o e.executor (handle w o e.executor)
      → ((execute w o e).inventory ≡ (settle_fill e.inventory o).0)
        × ((execute w o e).executor.trade_log ≡ (handle w o e.executor).trade_log)
  unfolding execute
  execute-Traded w o e t =
      let log = e.executor.trade_log in
      let longer : ltb (length log) (length (handle w o e.executor).trade_log) ≡ true =
        ground (arith, ap length t.logged, length-append log (t.entry ∷ [])) in
      (rw longer refl, rw longer refl)

  execute-skipped :
      (w : World F) (o : Opportunity F) (e : Engine F)
      → (handle w o e.executor).trade_log ≡ e.executor.trade_log
      → ((execute w o e).inventory ≡ (release_unfilled e.inventory o).0)
        × ((execute w o e).executor.trade_log ≡ e.executor.trade_log)
  unfolding execute
  execute-skipped w o e same =
      let short : ltb (length e.executor.trade_log) (length (handle w o e.executor).trade_log)
          ≡ false =
        ground (arith, ap length same) in
      (rw short refl, rw short same)

  -- Where sums are exact, one turn of the loop with an opportunity whose reservations the router locked
  -- either logs nothing and restores every balance to what it was before they were locked, or logs one
  -- trade that passed the gate and the check of profit, and leaves every balance as settling it does:
  -- the reservations are spent, and the legs' proceeds are free.
  pub execute_balances :
      (w : World F) (o : Opportunity F) (e : Engine F) (before : Inventory F) (r : Reservation F)
      (rs : List (Reservation F))
      → o.reservations ≡ some (r ∷ rs)
      → IsSolvent before
      → IsLocked before e.inventory (r ∷ rs)
      → let after = execute w o e in
        ((after.executor.trade_log ≡ e.executor.trade_log)
          × ((k : String × String) → cell after.inventory k ≡ cell before k))
        ⊎ (Traded w o e.executor (handle w o e.executor)
            × (after.executor.trade_log ≡ (handle w o e.executor).trade_log)
            × ((k : String × String)
                → cell after.inventory k ≡ gains o.legs k (pays (r ∷ rs) k (cell before k))))
  execute_balances w o e before r rs h solvent locked = elim (handle-Traded w o e.executor) [
    | inl same ↦
        let skipped = execute-skipped w o e same in
        inl (
          skipped.1,
          λ k.
              ap (λ inv. cell inv k) skipped.0
              ∙ release_unfilled_restores ordered rounded exact before e.inventory o (r ∷ rs) h
                  solvent locked k,
        )
    | inr t ↦
        let traded = execute-Traded w o e t in
        inr (
          t,
          traded.1,
          λ k.
              ap (λ inv. cell inv k) traded.0
              ∙ settle_fill_moves ordered rounded exact before e.inventory o r rs h solvent locked
                  k,
        )
  ]

  execute-manager :
      (w : World F) (o : Opportunity F) (e : Engine F)
      → (execute w o e).executor.risk_manager ≡ (handle w o e.executor).risk_manager
  unfolding execute
  execute-manager w o e =
      elim (Bool-cases
        (ltb (length e.executor.trade_log) (length (handle w o e.executor).trade_log))) [
          | inl k ↦ rw k refl
          | inr k ↦ rw k refl
        ]

  -- Where sums are exact and other tasks leave the deployed capital alone, a whole run of the loop over
  -- opportunities of sizes that are not negative leaves no capital deployed if none was before.
  pub execute_all-IsIdle :
      (worlds : ℕ → World F) (n : ℕ) (os : List (Opportunity F)) (e : Engine F)
      → ((i : ℕ) → KeepsDeployed ordered rounded exact (worlds i))
      → All (λ o. IsNonneg o.max_size_usd) os
      → IsIdle ordered rounded exact e.executor.risk_manager
      → IsIdle ordered rounded exact (execute_all worlds n os e).executor.risk_manager
  unfolding execute_all
  execute_all-IsIdle worlds n [] e keeps hs idle = idle
  execute_all-IsIdle worlds n (o ∷ os) e keeps (h, hs) idle =
      execute_all-IsIdle worlds (suc n) os (execute (worlds n) o e) keeps hs (
        rw (execute-manager (worlds n) o e)
          (handle-IsIdle ordered rounded exact (worlds n) o e.executor h (keeps n) idle))
