-- ===== src/Execution/Reconciler/Plans.antt =====
-- When an incident is opened, and what is proposed.
use crypto_arb_engine.Prelude.{
  ◌≡◌, refl, inl, inr, true, false, not, List, [], ◌∷◌, ◌++◌, map, filter, arith, All, Any,
  Bool-cases, if◌then◌else◌,
}
use crypto_arb_engine.Core.Types.{Side, is_buy, Opportunity}
use crypto_arb_engine.Execution.Reconciler.{
  LegResult, UnwindPlan, Incidents, check, unwind, is_empty,
}

-- The side that undoes a leg: what was bought is sold, anything else is bought.
abbrev pub undoes : Side → Side
undoes Side.buy = Side.sell
undoes Side.sell = Side.buy
undoes Side.transfer = Side.buy

unwind_side : (s : Side) → (if is_buy s then Side.sell else Side.buy) ≡ undoes s
unwind_side Side.buy = refl
unwind_side Side.sell = refl
unwind_side Side.transfer = refl

module _ {F : Type 0} where
  All-succeed :
      (rs : List (LegResult F))
      → All (λ r. r.success ≡ true) rs
      → is_empty (filter (λ r. not r.success) rs) ≡ true
  All-succeed [] h = refl
  All-succeed (r ∷ rs) (h, hs) = rw h (All-succeed rs hs)

  All-fail :
      (rs : List (LegResult F))
      → All (λ r. r.success ≡ false) rs
      → is_empty (filter (λ r. r.success) rs) ≡ true
  All-fail [] h = refl
  All-fail (r ∷ rs) (h, hs) = rw h (All-fail rs hs)

  some_fail :
      (rs : List (LegResult F))
      → Any (λ r. r.success ≡ false) rs
      → is_empty (filter (λ r. not r.success) rs) ≡ false
  some_fail [] a = elim a [ ]
  some_fail (r ∷ rs) (Any.here h) = rw h refl
  some_fail (r ∷ rs) (Any.there a) = elim (Bool-cases r.success) [
    | inl e ↦ rw e (some_fail rs a)
    | inr e ↦ rw e refl
  ]

  some_succeed :
      (rs : List (LegResult F))
      → Any (λ r. r.success ≡ true) rs
      → is_empty (filter (λ r. r.success) rs) ≡ false
  some_succeed [] a = elim a [ ]
  some_succeed (r ∷ rs) (Any.here h) = rw h refl
  some_succeed (r ∷ rs) (Any.there a) = elim (Bool-cases r.success) [
    | inl e ↦ rw e refl
    | inr e ↦ rw e (some_succeed rs a)
  ]

  -- One plan for each leg that filled, in order: of the leg's venue, symbol and size, on the other side.
  abbrev pub plans : List (LegResult F) → List (UnwindPlan F)
  plans [] = []
  plans (r ∷ rs) =
      let l = r.leg in
      let plan : UnwindPlan F = record {
        venue_id = l.venue_id;
        symbol = l.symbol;
        side = undoes l.side;
        size = l.size;
      } in
      if r.success then plan ∷ plans rs else plans rs

  unwind-plans : (rs : List (LegResult F)) → map unwind (filter (λ r. r.success) rs) ≡ plans rs
  unfolding unwind
  unwind-plans [] = refl
  unwind-plans (r ∷ rs) = elim (Bool-cases r.success) [
    | inl e ↦ rw (e, unwind_side r.leg.side, unwind-plans rs) refl
    | inr e ↦ rw (e, unwind-plans rs) refl
  ]

  -- If every leg filled, or none did, nothing is opened or proposed. If some filled and some failed,
  -- one incident is added behind the open ones, with one plan for each filled leg: of that leg's
  -- venue, symbol and quoted size, on the other side, whatever size was fired.
  pub check_lem :
      (incidents : Incidents F) (o : Opportunity F) (rs : List (LegResult F))
      → (All (λ r. r.success ≡ true) rs → check incidents o rs ≡ (incidents, []))
        × (All (λ r. r.success ≡ false) rs → check incidents o rs ≡ (incidents, []))
        × (Any (λ r. r.success ≡ true) rs
            → Any (λ r. r.success ≡ false) rs
            → check incidents o rs ≡ (incidents ++ ((o, rs) ∷ []), plans rs))
  unfolding check
  check_lem incidents o rs = (
    λ h. rw (All-succeed rs h),
    λ h. ground (arith, All-fail rs h),
    λ s f. rw (some_fail rs f, some_succeed rs s, unwind-plans rs) refl,
  )

  -- Trading a plan after its leg leaves no position: what was bought is sold, what was sold is bought.
  pub unwind_opposes :
      (r : LegResult F)
      → (is_buy (unwind r).side ≡ not (is_buy r.leg.side))
        × ((unwind r).size ≡ r.leg.size)
        × ((unwind r).venue_id ≡ r.leg.venue_id)
        × ((unwind r).symbol ≡ r.leg.symbol)
  unfolding unwind
  unwind_opposes r = ground arith
