-- ===== src/Execution/Router/Settle.antt =====
-- What becomes of reservations: given back, or spent by a fill, once.
use crypto_arb_engine.Prelude.{
  ◌≡◌, refl, ◌∙◌, ap, Option, none, some, List, [], ◌∷◌, String, if◌then◌else◌, Bool-cases, inl,
  inr,
}
use crypto_arb_engine.Prelude.Text.{split_slash}
use crypto_arb_engine.Float.{Float, ◌⊗◌, ◌≤?◌, nought, IsOrdered, IsRounded, IsExact}
use crypto_arb_engine.Core.Types.{Side, Leg, Reservation, Opportunity}
use crypto_arb_engine.Execution.Inventory.{Inventory}
use crypto_arb_engine.Execution.Inventory.Totals.{cell, credit_cell, cell-credit}
use crypto_arb_engine.Execution.Inventory.Solvent.{IsSolvent}
use crypto_arb_engine.Execution.Router.Defs.{
  settle_all, credit_side, credit_leg, credit_legs, release_unfilled, settle_fill,
}
use crypto_arb_engine.Execution.Router.Cells.{
  hits, same_cell, unlocks, spends, pays, cell-release_all, cell-settle_all, unlocks-locks,
  spends-locks,
}
use crypto_arb_engine.Execution.Router.Select.{IsLocked}

module _ {F : Type 0} ⦃f : Float F⦄ where
  -- After `settle_fill` of an opportunity, neither a second one nor a `release_unfilled` changes
  -- the inventory or the opportunity.
  settle_fill_once :
      (inv : Inventory F) (o : Opportunity F)
      → let (settled, o') = settle_fill inv o in
        (settle_fill settled o' ≡ (settled, o')) × (release_unfilled settled o' ≡ (settled, o'))
  unfolding settle_fill release_unfilled
  settle_fill_once inv o = (refl, refl)

  -- What a filled leg brings in: of a spot symbol with a positive size, the base for a purchase and
  -- the quote's price times size for a sale.
  abbrev pub received_by : Side → Leg F → String → String → Option (Reservation F)
  received_by Side.buy leg base quote =
      some (record { venue_id = leg.venue_id; asset = base; amount = leg.size })
  received_by Side.sell leg base quote =
      some (record { venue_id = leg.venue_id; asset = quote; amount = leg.price ⊗ leg.size })
  received_by Side.transfer leg base quote = none

  abbrev pub received : Option (String × String) → Leg F → Option (Reservation F)
  received none leg = none
  received (some (base, quote)) leg =
      if leg.size ≤? nought then none else received_by leg.side leg base quote

  abbrev pub gain_one : Option (Reservation F) → String × String → F × F → F × F
  gain_one none k c = c
  gain_one (some r) k c = if hits r k then credit_cell r.amount c else c

  -- The credits of a list of legs, at one cell.
  abbrev pub gains : List (Leg F) → String × String → F × F → F × F
  gains [] k c = c
  gains (leg ∷ legs) k c = gains legs k (gain_one (received (split_slash leg.symbol) leg) k c)

  cell-credit_side :
      (side : Side) (leg : Leg F) (base quote : String) (inv : Inventory F) (k : String × String)
      → cell (credit_side side leg base quote inv) k
        ≡ gain_one (received_by side leg base quote) k (cell inv k)
  unfolding credit_side
  cell-credit_side Side.buy leg base quote inv k =
      let r : Reservation F = record { venue_id = leg.venue_id; asset = base; amount = leg.size } in
      cell-credit inv leg.venue_id base leg.size k ∙ same_cell r k (credit_cell leg.size) inv
  cell-credit_side Side.sell leg base quote inv k =
      let amount = leg.price ⊗ leg.size in
      let r : Reservation F = record { venue_id = leg.venue_id; asset = quote; amount = amount } in
      cell-credit inv leg.venue_id quote amount k ∙ same_cell r k (credit_cell amount) inv
  cell-credit_side Side.transfer leg base quote inv k = refl

  cell-credit_leg :
      (split : Option (String × String)) (leg : Leg F) (inv : Inventory F) (k : String × String)
      → cell (credit_leg split leg inv) k ≡ gain_one (received split leg) k (cell inv k)
  unfolding credit_leg
  cell-credit_leg none leg inv k = refl
  cell-credit_leg (some (base, quote)) leg inv k = elim (Bool-cases (leg.size ≤? nought)) [
    | inl e ↦ rw e refl
    | inr e ↦ rw e (cell-credit_side leg.side leg base quote inv k)
  ]

  pub cell-credit_legs :
      (legs : List (Leg F)) (inv : Inventory F) (k : String × String)
      → cell (credit_legs legs inv) k ≡ gains legs k (cell inv k)
  cell-credit_legs [] inv k = unfold credit_legs in refl
  cell-credit_legs (leg ∷ legs) inv k =
      credit_step
      ∙ cell-credit_legs legs (credit_leg (split_slash leg.symbol) leg inv) k
      ∙ ap (gains legs k) (cell-credit_leg (split_slash leg.symbol) leg inv k)
    where
      credit_step :
          cell (credit_legs (leg ∷ legs) inv) k
          ≡ cell (credit_legs legs (credit_leg (split_slash leg.symbol) leg inv)) k
      credit_step = unfold credit_legs in refl

  module _ (ordered : IsOrdered F) (rounded : IsRounded F) (exact : IsExact F) where
    -- Where sums are exact, `release_unfilled` gives an opportunity's reservations back: if they
    -- are what was locked in a solvent inventory, every balance is what it was before.
    pub release_unfilled_restores :
        (before after : Inventory F) (o : Opportunity F) (rs : List (Reservation F))
        → o.reservations ≡ some rs
        → IsSolvent before
        → IsLocked before after rs
        → (k : String × String) → cell (release_unfilled after o).0 k ≡ cell before k
    unfolding release_unfilled
    release_unfilled_restores before after o rs e h l k = rw e (
        cell-release_all rs after k
        ∙ ap (unlocks rs k) (l.cells k)
        ∙ unlocks-locks ordered rounded exact rs k (cell before k) l.amounts (h k).1)

    settle_all-pays :
        (before after : Inventory F) (rs : List (Reservation F))
        → IsSolvent before
        → IsLocked before after rs
        → (k : String × String) → cell (settle_all rs after) k ≡ pays rs k (cell before k)
    settle_all-pays before after rs h l k =
        cell-settle_all rs after k
        ∙ ap (spends rs k) (l.cells k)
        ∙ spends-locks ordered rounded exact rs k (cell before k) l.amounts (h k).1

    -- Where sums are exact, settling an opportunity whose reservations, at least one, are what was
    -- locked in a solvent inventory leaves at every venue and asset the old free amount less what was
    -- reserved there, with the old locked amount, plus what the legs bring in.
    pub settle_fill_moves :
        (before after : Inventory F) (o : Opportunity F) (r : Reservation F)
        (rs : List (Reservation F))
        → o.reservations ≡ some (r ∷ rs)
        → IsSolvent before
        → IsLocked before after (r ∷ rs)
        → (k : String × String)
        → cell (settle_fill after o).0 k ≡ gains o.legs k (pays (r ∷ rs) k (cell before k))
    settle_fill_moves before after o r rs e h l k =
        ap
          (λ (s : Option (List (Reservation F))).
            cell (settle_fill after (record o { reservations = s })).0 k)
          e
        ∙ settled
        ∙ cell-credit_legs o.legs (settle_all (r ∷ rs) after) k
        ∙ ap (gains o.legs k) (settle_all-pays before after (r ∷ rs) h l k)
      where
        settled :
            cell (settle_fill after (record o { reservations = some (r ∷ rs) })).0 k
            ≡ cell (credit_legs o.legs (settle_all (r ∷ rs) after)) k
        settled = unfold settle_fill in refl
