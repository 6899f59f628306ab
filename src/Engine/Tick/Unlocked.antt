-- ===== src/Engine/Tick/Unlocked.antt =====
-- A whole tick's effect on what is locked.
use crypto_arb_engine.Prelude.{
  ◌≡◌, refl, sym, ◌∙◌, ap, subst, ℕ, suc, List, [], ◌∷◌, String, length, ltb, ◌⊎◌, inl, inr,
  Bool-cases, or_default, All-split,
}
use crypto_arb_engine.Float.{Float, IsNonneg, IsOrdered, IsRounded, IsExact}
use crypto_arb_engine.Core.Types.{Mode, Opportunity}
use crypto_arb_engine.Execution.Inventory.Totals.{cell}
use crypto_arb_engine.Execution.Inventory.Solvent.{IsSolvent}
use crypto_arb_engine.Execution.Router.{settle_fill, release_unfilled}
use crypto_arb_engine.Execution.Router.Cells.{locks, Amounts}
use crypto_arb_engine.Execution.Router.Select.{reservations_of, select_locks}
use crypto_arb_engine.Execution.Router.Pending.{release_pending, settle_pending}
use crypto_arb_engine.Execution.Executor.{World, handle}
use crypto_arb_engine.Engine.Tick.{Engine, execute, execute_all, choose, decide}

module _ {F : Type 0} ⦃f : Float F⦄ where
  -- One turn of the loop settles the opportunity or gives its reservations back.
  execute-inventory :
      (w : World F) (o : Opportunity F) (e : Engine F)
      → ((execute w o e).inventory ≡ (settle_fill e.inventory o).0)
        ⊎ ((execute w o e).inventory ≡ (release_unfilled e.inventory o).0)
  unfolding execute
  execute-inventory w o e =
      elim (Bool-cases
        (ltb (length e.executor.trade_log) (length (handle w o e.executor).trade_log))) [
          | inl k ↦ inl (rw k refl)
          | inr k ↦ inr (rw k refl)
        ]

  module _ (ordered : IsOrdered F) (rounded : IsRounded F) (exact : IsExact F) where
    execute_pending :
        (w : World F) (o : Opportunity F) (os : List (Opportunity F)) (e : Engine F)
        (k : String × String) (c : F × F)
        → Amounts (or_default [] o.reservations)
        → Amounts (reservations_of os)
        → IsNonneg c.1
        → cell e.inventory k ≡ locks (reservations_of (o ∷ os)) k c
        → (d : F × F) × (d.1 ≡ c.1)
          × (cell (execute w o e).inventory k ≡ locks (reservations_of os) k d)
    execute_pending w o os e k c hr hs n h = elim (execute-inventory w o e) [
      | inl y ↦
          let (d, same, eq) =
            settle_pending ordered rounded exact e.inventory o (reservations_of os) k c hr hs n h in
          (d, same, ap (λ inv. cell inv k) y ∙ eq)
      | inr y ↦ (
        c,
        refl,
        ap (λ inv. cell inv k) y
            ∙ release_pending ordered rounded exact e.inventory o (reservations_of os) k c hr hs n
                h,
      )
    ]

    execute_all_locked :
        (worlds : ℕ → World F) (n : ℕ) (os : List (Opportunity F)) (e : Engine F)
        (k : String × String) (c : F × F)
        → Amounts (reservations_of os)
        → IsNonneg c.1
        → cell e.inventory k ≡ locks (reservations_of os) k c
        → (cell (execute_all worlds n os e).inventory k).1 ≡ c.1
    unfolding execute_all
    execute_all_locked worlds n [] e k c hs h eq = λ i. (eq i).1
    execute_all_locked worlds n (o ∷ os) e k c hs h eq =
        let (hr, ht) =
          All-split (λ r. IsNonneg r.amount) (or_default [] o.reservations) (reservations_of os)
            hs in
        let (d, same, eq') = execute_pending (worlds n) o os e k c hr ht h eq in
        execute_all_locked worlds (suc n) os (execute (worlds n) o e) k d ht
          (subst IsNonneg (sym same) h) eq'
        ∙ same

    selected_unlocks :
        (worlds : ℕ → World F) (os : List (Opportunity F)) (e : Engine F)
        → IsSolvent e.inventory
        → (k : String × String)
        → let (chosen, to_execute) = choose Mode.paper os e in
          (cell (execute_all worlds 0 to_execute chosen).inventory k).1 ≡ (cell e.inventory k).1
    selected_unlocks worlds os e h k =
        let (chosen, to_execute) = choose Mode.paper os e in
        let locked = (select_locks ordered rounded exact e.inventory e.executor.metrics os h).0 in
        execute_all_locked worlds 0 to_execute chosen k (cell e.inventory k) locked.amounts (h k).1
          (locked.cells k)

    choose_unlocks :
        (worlds : ℕ → World F) (os : List (Opportunity F)) (mode : Mode) (e : Engine F)
        → ¬ (mode ≡ Mode.monitor)
        → IsSolvent e.inventory
        → (k : String × String)
        → let (chosen, to_execute) = choose mode os e in
          (cell (execute_all worlds 0 to_execute chosen).inventory k).1 ≡ (cell e.inventory k).1
    choose_unlocks worlds os Mode.monitor e m h k = absurd (m refl)
    choose_unlocks worlds os Mode.paper e m h k = selected_unlocks worlds os e h k
    choose_unlocks worlds os Mode.live e m h k = selected_unlocks worlds os e h k

    -- Where sums are exact and the inventory is solvent, a tick that trades, in paper or live mode,
    -- leaves no reservation behind: whatever the worlds answer and however each execution ends, the
    -- locked amount of every asset at every venue is after the tick what it was before.
    pub decide_unlocks :
        (worlds : ℕ → World F) (os : List (Opportunity F)) (e : Engine F)
        → ¬ (e.executor.mode ≡ Mode.monitor)
        → IsSolvent e.inventory
        → (k : String × String) → (cell (decide worlds os e).inventory k).1 ≡ (cell e.inventory k).1
    unfolding decide
    decide_unlocks worlds os e m h k = choose_unlocks worlds os e.executor.mode e m h k
