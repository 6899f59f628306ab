-- ===== src/Execution/Router/Select.antt =====
-- What `select` reserves: just the reservations of the opportunities that it accepts.
use crypto_arb_engine.Prelude.{
  ℕ, ◌+◌, ◌≡◌, refl, sym, ◌∙◌, ap, subst, Option, none, some, List, [], ◌∷◌, ◌++◌, String, Bool,
  true, false, if◌then◌else◌, Option-cases, Bool-cases, inl, inr, arith, or_default, All-append,
  length,
}
use crypto_arb_engine.Prelude.Dict.{string_key, get, lookup-set}
use crypto_arb_engine.Prelude.Sort.{sort, length-sort}
use crypto_arb_engine.Prelude.Text.{split_slash}
use crypto_arb_engine.Float.{Float, ◌⊗◌, ◌≤?◌, nought, IsNonneg, IsOrdered, IsRounded, IsExact}
use crypto_arb_engine.Float.Bounds.{IsNonneg-of_not_le}
use crypto_arb_engine.Core.Types.{is_buy, Leg, Reservation, Opportunity}
use crypto_arb_engine.Analytics.Metrics.{Metrics, record_rejection}
use crypto_arb_engine.Execution.Inventory.{Inventory}
use crypto_arb_engine.Execution.Inventory.Totals.{cell, lock_cell, cell-reserve, reserve_refused}
use crypto_arb_engine.Execution.Inventory.Solvent.{IsSolvent, IsSolventCell, reserve-IsSolvent}
use crypto_arb_engine.Execution.Router.Defs.{
  leg_asset, leg_amount, reservation_of, reserve_for, reserve_legs, release_all, select_loop,
  select, by_value_down, count_rejection,
}
use crypto_arb_engine.Execution.Router.Cells.{
  locks, unlocks, Amounts, locks-append, cell-release_all, unlocks-locks, same_cell,
}

-- What a leg spends: a purchase the quote, for price times size, anything else the base, or all of a
-- symbol without a slash, for its size.
abbrev spent_asset : Option (String × String) → String → Bool → String
spent_asset none symbol buys = symbol
spent_asset (some (base, quote)) symbol true = quote
spent_asset (some (base, quote)) symbol false = base

module _ {F : Type 0} ⦃f : Float F⦄ where
  abbrev demand : Leg F → Reservation F
  demand leg = record {
    venue_id = leg.venue_id;
    asset = spent_asset (split_slash leg.symbol) leg.symbol (is_buy leg.side);
    amount = if is_buy leg.side then leg.price ⊗ leg.size else leg.size;
  }

  -- What a whole list of legs spends, less the amounts that are not positive.
  abbrev pub demands : List (Leg F) → List (Reservation F)
  demands [] = []
  demands (leg ∷ legs) =
      if (demand leg).amount ≤? nought then demands legs else demand leg ∷ demands legs

  reservation-demand : (leg : Leg F) → reservation_of leg ≡ demand leg
  unfolding leg_asset leg_amount
  reservation-demand leg = elim (Option-cases (split_slash leg.symbol)) [
    | inl e ↦ rw (leg_asset, e) refl
    | inr e ↦
        rw (leg_asset, e.1)
          (elim (Bool-cases (is_buy leg.side)) [ inl b ↦ rw b refl | inr b ↦ rw b refl ])
  ]

-- The first list is the second with some elements left out, and into each of the others put the
-- reservations of all that its legs spend.
pub data Picks (F : Type 0) ⦃f : Float F⦄
    : List (Opportunity F) → List (Opportunity F) → Type 0 where
  done : Picks F [] []
  keep :
      {picked os : List (Opportunity F)} (o : Opportunity F)
      → Picks F picked os
      → Picks F (record o { reservations = some (demands o.legs) } ∷ picked) (o ∷ os)
  drop :
      {picked os : List (Opportunity F)} (o : Opportunity F)
      → Picks F picked os
      → Picks F picked (o ∷ os)

module _ {F : Type 0} ⦃f : Float F⦄ where
  -- Every reservation that a list of opportunities holds, in order.
  abbrev pub reservations_of : List (Opportunity F) → List (Reservation F)
  reservations_of [] = []
  reservations_of (o ∷ os) = or_default [] o.reservations ++ reservations_of os

  -- The inventory `after` is `before` with these amounts locked, each of them not negative, and it is
  -- solvent.
  pub record IsLocked (before after : Inventory F) (rs : List (Reservation F)) : Type 0 where
    pub amounts : Amounts rs
    pub cells : (k : String × String) → cell after k ≡ locks rs k (cell before k)
    pub solvent : IsSolvent after

  module _ (ordered : IsOrdered F) (rounded : IsRounded F) where
    reserve_legs-IsLocked :
        (inv : Inventory F) (legs : List (Leg F))
        → IsSolvent inv
        → IsLocked inv (reserve_legs inv legs).0 (reserve_legs inv legs).1
    unfolding reserve_legs
    reserve_legs-IsLocked inv [] h = record { amounts = tt; cells = λ k. refl; solvent = h }
    reserve_legs-IsLocked inv (leg ∷ legs) h =
        let r = reservation_of leg in
        elim (Bool-cases (r.amount ≤? nought)) [
          | inl e ↦ rw e (reserve_legs-IsLocked inv legs h)
          | inr e ↦
              let amount = IsNonneg-of_not_le ordered r.amount e in
              let ih =
                reserve_legs-IsLocked (reserve_for inv r).0 legs
                  (reserve-IsSolvent ordered rounded inv r.venue_id r.asset r.amount amount h) in
              elim (Bool-cases (reserve_for inv r).1) [
                | inl y ↦
                    rw (e, y)
                      (record {
                        amounts = (amount, ih.amounts);
                        cells = λ k.
                            ih.cells k
                            ∙ ap (locks (reserve_legs (reserve_for inv r).0 legs).1 k) (
                                cell-reserve inv r.venue_id r.asset r.amount k y
                                ∙ same_cell r k (lock_cell r.amount) inv);
                        solvent = ih.solvent;
                      })
                | inr y ↦
                    rw (e, y)
                      (record {
                        amounts = tt;
                        cells = λ k.
                            ap (λ (i : Inventory F). cell i k)
                              (reserve_refused inv r.venue_id r.asset r.amount y);
                        solvent =
                            subst IsSolvent
                              (sym (reserve_refused inv r.venue_id r.asset r.amount y)) h;
                      })
              ]
        ]

    -- Where every leg was reserved, just what the legs spend was.
    reserve_legs-demands :
        (inv : Inventory F) (legs : List (Leg F))
        → (reserve_legs inv legs).2 ≡ true
        → (reserve_legs inv legs).1 ≡ demands legs
    unfolding reserve_legs
    reserve_legs-demands inv [] h = refl
    reserve_legs-demands inv (leg ∷ legs) h =
        let r = reservation_of leg in
        let same = reservation-demand leg in
        let amount = ap (λ (q : Reservation F). q.amount ≤? nought) (sym same) in
        elim (Bool-cases (r.amount ≤? nought)) [
          | inl e ↦ rw (e, amount ∙ e) (reserve_legs-demands inv legs (rw e at h))
          | inr e ↦ elim (Bool-cases (reserve_for inv r).1) [
            | inr y ↦ cc (rw (e, y) at h)
            | inl y ↦
                rw (e, y, amount ∙ e)
                  (λ i. same i ∷ reserve_legs-demands (reserve_for inv r).0 legs (rw (e, y) at h) i)
          ]
        ]

    module _ (exact : IsExact F) where
      -- Releasing what an opportunity had reserved puts every cell back.
      roll_back :
          (inv after : Inventory F) (rs : List (Reservation F))
          → IsSolvent inv
          → IsLocked inv after rs
          → (k : String × String) → cell (release_all rs after) k ≡ cell inv k
      roll_back inv after rs h l k =
          cell-release_all rs after k
          ∙ ap (unlocks rs k) (l.cells k)
          ∙ unlocks-locks ordered rounded exact rs k (cell inv k) l.amounts (h k).1

      -- A step from cells that are equal to those of `inv`.
      from_equal :
          (inv inv' after : Inventory F) (rs : List (Reservation F))
          → ((k : String × String) → cell inv' k ≡ cell inv k)
          → IsLocked inv' after rs
          → IsLocked inv after rs
      from_equal inv inv' after rs same l = record {
        amounts = l.amounts;
        cells = λ k. l.cells k ∙ ap (locks rs k) (same k);
        solvent = l.solvent;
      }

      then-IsLocked :
          (inv inv' after : Inventory F) (rs ss : List (Reservation F))
          → IsLocked inv inv' rs
          → IsLocked inv' after ss
          → IsLocked inv after (rs ++ ss)
      then-IsLocked inv inv' after rs ss l m = record {
        amounts = All-append (λ r. IsNonneg r.amount) rs ss l.amounts m.amounts;
        cells =
            λ k. m.cells k ∙ ap (locks ss k) (l.cells k) ∙ sym (locks-append rs ss k (cell inv k));
        solvent = m.solvent;
      }

      select_loop-IsLocked :
          (inv : Inventory F) (m : Option (Metrics F)) (ranked : List (Opportunity F))
          → IsSolvent inv
          → let (after, _, accepted) = select_loop inv m ranked in
            IsLocked inv after (reservations_of accepted) × Picks F accepted ranked
      unfolding select_loop
      select_loop-IsLocked inv m [] h =
          (record { amounts = tt; cells = λ k. refl; solvent = h }, Picks.done)
      select_loop-IsLocked inv m (o ∷ ranked) h =
          let (reserved_inv, rs, ok) = reserve_legs inv o.legs in
          let locked = reserve_legs-IsLocked inv o.legs h in
          elim (Bool-cases ok) [
            | inl y ↦
                let (ih, picks) = select_loop-IsLocked reserved_inv m ranked locked.solvent in
                rw y (
                  then-IsLocked inv reserved_inv _ rs _ locked ih,
                  subst
                      (λ ds.
                        Picks F
                          (record o { reservations = some ds }
                            ∷ (select_loop reserved_inv m ranked).2)
                          (o ∷ ranked))
                      (sym (reserve_legs-demands inv o.legs y)) (Picks.keep o picks),
                )
            | inr y ↦
                let back = roll_back inv reserved_inv rs h locked in
                let (ih, picks) =
                  select_loop-IsLocked (release_all rs reserved_inv)
                    (count_rejection m "no_balance_on_venue") ranked
                    (λ k. subst IsSolventCell (sym (back k)) (h k)) in
                rw y (from_equal inv (release_all rs reserved_inv) _ _ back ih, Picks.drop o picks)
          ]

      -- Where sums are exact and the inventory is solvent, what `select` leaves of every balance is
      -- the old balance with just the reservations of the accepted opportunities locked: one that
      -- could not be reserved leaves no trace, and no balance falls below zero. The accepted ones are
      -- taken from the list sorted by expected value, in that order, and each holds the reservations of
      -- all that its legs spend.
      pub select_locks :
          (inv : Inventory F) (m : Option (Metrics F)) (opportunities : List (Opportunity F))
          → IsSolvent inv
          → let (after, _, accepted) = select inv m opportunities in
            IsLocked inv after (reservations_of accepted)
            × Picks F accepted (sort by_value_down opportunities)
      unfolding select
      select_locks inv m opportunities h =
          select_loop-IsLocked inv m (sort by_value_down opportunities) h

  -- The count of opportunities that the router turned away.
  abbrev pub turned_away : Option (Metrics F) → ℕ
  turned_away none = 0
  turned_away (some m) = get 0 "no_balance_on_venue" m.rejections

  turned_away-count :
      (m : Metrics F)
      → turned_away (count_rejection (some m) "no_balance_on_venue") ≡ turned_away (some m) + 1
  unfolding record_rejection
  turned_away-count m =
      rw (lookup-set {K = String} "no_balance_on_venue" "no_balance_on_venue" _ m.rejections)

  select_loop_counts :
      (inv : Inventory F) (m : Metrics F) (ranked : List (Opportunity F))
      → let (_, after, accepted) = select_loop inv (some m) ranked in
        turned_away after + length accepted ≡ turned_away (some m) + length ranked
  unfolding select_loop
  select_loop_counts inv m [] = refl
  select_loop_counts inv m (o ∷ ranked) =
      let (reserved_inv, rs, ok) = reserve_legs inv o.legs in
      elim (Bool-cases ok) [
        | inl y ↦ rw y (omega (arith, select_loop_counts reserved_inv m ranked))
        | inr y ↦ rw y (
            omega (
              arith,
              select_loop_counts (release_all rs reserved_inv)
                  (record_rejection "no_balance_on_venue" m) ranked,
              turned_away-count m,
            ))
      ]

  -- With metrics, the opportunities that `select` accepts and those that it counts as without a
  -- balance are as many as came in.
  pub select_counts :
      (inv : Inventory F) (m : Metrics F) (opportunities : List (Opportunity F))
      → let (_, after, accepted) = select inv (some m) opportunities in
        turned_away after + length accepted ≡ turned_away (some m) + length opportunities
  unfolding select
  select_counts inv m opportunities =
      select_loop_counts inv m (sort by_value_down opportunities)
      ∙ ap (λ n. turned_away (some m) + n) (length-sort by_value_down opportunities)
