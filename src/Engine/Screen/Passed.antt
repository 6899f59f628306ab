-- ===== src/Engine/Screen/Passed.antt =====
-- What the filters before the router demand of an opportunity.
use crypto_arb_engine.Prelude.{
  ◌≡◌, ◌≢◌, refl, true, false, Bool, Option, none, some, List, [], ◌∷◌, String, All, Any, ◌⊎◌, inl,
  inr, ◌↔◌, Bool-cases, arith, ◌&&◌,
}
use crypto_arb_engine.Prelude.Dict.{string_key}
use crypto_arb_engine.Prelude.Text.{split_slash}
use crypto_arb_engine.Float.{Float, ◌<?◌, max, IsNum, IsOrdered}
use crypto_arb_engine.Core.Types.{Side, is_buy, Leg, Opportunity}
use crypto_arb_engine.Core.Graph.{member}
use crypto_arb_engine.Config.Venues.{Venues, min_order_usd_for, can_withdraw, can_deposit}
use crypto_arb_engine.Engine.Filters.{
  required, fillable_legs, is_fillable, is_sell, subset, is_nil, venues_of, spot_moves, legs_move,
  is_rebalanceable,
}

and_true : {a b : Bool} → a && b ≡ true → (a ≡ true) × (b ≡ true)
and_true {a} {b} h = ground arith

member_found : (x : String) (ys : List String) → member x ys ≡ true → Any (λ y. y ≡ x) ys
unfolding member
member_found x [] h = cc
member_found x (y ∷ ys) h = elim (Bool-cases (string_key.same y x)) [
  | inl e ↦ Any.here ((string_key.same_iff y x).0 e)
  | inr e ↦ Any.there (member_found x ys (rw e at h))
]

subset_found :
    (xs ys : List String) (v : String)
    → subset xs ys ≡ true
    → Any (λ x. x ≡ v) xs
    → Any (λ y. y ≡ v) ys
unfolding subset
subset_found [] ys v h a = elim a [ ]
subset_found (x ∷ xs) ys v h (Any.here e) = rw e at (member_found x ys (and_true h).0)
subset_found (x ∷ xs) ys v h (Any.there a) = subset_found xs ys v (and_true h).1 a

module _ {F : Type 0} where
  -- A leg of that venue and side.
  abbrev pub Buys : String → List (Leg F) → Type 0
  Buys venue = Any (λ l. (l.venue_id ≡ venue) × (l.side ≡ Side.buy))

  abbrev pub Sells : String → List (Leg F) → Type 0
  Sells venue = Any (λ l. (l.venue_id ≡ venue) × (l.side ≡ Side.sell))

  venue_listed :
      (p : Side → Bool) (side : Side) (v : String) (legs : List (Leg F))
      → p side ≡ true
      → Any (λ l. (l.venue_id ≡ v) × (l.side ≡ side)) legs
      → Any (λ x. x ≡ v) (venues_of p legs)
  venue_listed p side v [] h a = elim a [ ]
  venue_listed p side v (l ∷ legs) h (Any.here (e, s)) = rw (s, h) (Any.here e)
  venue_listed p side v (l ∷ legs) h (Any.there a) = elim (Bool-cases (p l.side)) [
    | inl k ↦ rw k (Any.there (venue_listed p side v legs h a))
    | inr k ↦ rw k (venue_listed p side v legs h a)
  ]

  listed_venue :
      (p : Side → Bool) (side : Side) (v : String) (legs : List (Leg F))
      → ((s : Side) → p s ≡ true → s ≡ side)
      → Any (λ x. x ≡ v) (venues_of p legs)
      → Any (λ l. (l.venue_id ≡ v) × (l.side ≡ side)) legs
  listed_venue p side v [] h a = elim a [ ]
  listed_venue p side v (l ∷ legs) h a = elim (Bool-cases (p l.side)) [
    | inr k ↦ Any.there (listed_venue p side v legs h (rw k at a))
    | inl k ↦
        let first : Any (λ x. x ≡ v) (l.venue_id ∷ venues_of p legs) = rw k at a in
        elim first [
          | Any.here e ↦ Any.here (e, h l.side k)
          | Any.there more ↦ Any.there (listed_venue p side v legs h more)
        ]
  ]

only_buy : (s : Side) → is_buy s ≡ true → s ≡ Side.buy
only_buy Side.buy h = refl
only_buy Side.sell h = cc
only_buy Side.transfer h = cc

only_sell : (s : Side) → is_sell s ≡ true → s ≡ Side.sell
only_sell Side.sell h = refl
only_sell Side.buy h = cc
only_sell Side.transfer h = cc

none_held : (xs : List String) (v : String) → is_nil xs ≡ true → ¬ Any (λ x. x ≡ v) xs
none_held [] v h a = elim a [ ]
none_held (x ∷ xs) v h a = cc

module _ {F : Type 0} ⦃f : Float F⦄ where
  -- The opportunity has legs, and clears the smallest order of each leg's venue.
  abbrev pub Clears : Venues F → Opportunity F → Type 0
  Clears t o =
      (o.legs ≢ []) × All (λ leg. o.max_size_usd <? min_order_usd_for t leg.venue_id ≡ false) o.legs

  -- Of a spot symbol, what a leg buys can leave its venue, or what it sells can reach it.
  abbrev pub MovesAsset : Venues F → Side → String → Option (String × String) → Type 0
  MovesAsset t side venue none = Unit
  MovesAsset t Side.buy venue (some (base, quote)) = can_withdraw t venue base ≡ true
  MovesAsset t Side.sell venue (some (base, quote)) = can_deposit t venue base ≡ true
  MovesAsset t Side.transfer venue (some (base, quote)) = Unit

  -- Nothing is bought, or the venues that buy are those that sell, or every leg's asset can move.
  abbrev pub Rebalances : Venues F → List (Leg F) → Type 0
  Rebalances t legs =
      ((venue : String) → ¬ Buys venue legs)
      ⊎ ((venue : String) → Buys venue legs ↔ Sells venue legs)
      ⊎ All (λ l. MovesAsset t l.side l.venue_id (split_slash l.symbol)) legs

  abbrev pub Passed : Venues F → Opportunity F → Type 0
  Passed t o = Clears t o × Rebalances t o.legs

  -- What is not below the larger of two numbers is below neither.
  max_bounds :
      (ordered : IsOrdered F) (a b size : F)
      → IsNum a
      → size <? max a b ≡ false
      → (size <? a ≡ false) × (size <? b ≡ false)
  unfolding max
  max_bounds ordered a b size m h = elim (Bool-cases (a <? b)) [
    | inl e ↦
        let under : size <? b ≡ false = rw e at h in
        (ground (arith, ordered.lt_trans size a b), under)
    | inr e ↦
        let under : size <? a ≡ false = rw e at h in (under, ordered.lt_weak size a b m under e)
  ]

  max-IsNum : (a b : F) → IsNum a → IsNum b → IsNum (max a b)
  unfolding max
  max-IsNum a b m n = elim (Bool-cases (a <? b)) [ inl e ↦ rw e n | inr e ↦ rw e m ]

  required_bounds :
      (ordered : IsOrdered F) (t : Venues F) (best size : F) (legs : List (Leg F))
      → ((venue : String) → IsNum (min_order_usd_for t venue))
      → IsNum best
      → size <? required t best legs ≡ false
      → (size <? best ≡ false) × All (λ leg. size <? min_order_usd_for t leg.venue_id ≡ false) legs
  unfolding required
  required_bounds ordered t best size [] n k h = (h, tt)
  required_bounds ordered t best size (leg ∷ legs) n k h =
      let least = min_order_usd_for t leg.venue_id in
      let num : IsNum (max best least) = max-IsNum best least k (n leg.venue_id) in
      let (here, rest) = required_bounds ordered t (max best least) size legs n num h in
      let (under, over) = max_bounds ordered best least size k here in (under, (over, rest))

  fillable_legs-clear :
      (ordered : IsOrdered F) (t : Venues F) (size : F) (legs : List (Leg F))
      → ((venue : String) → IsNum (min_order_usd_for t venue))
      → fillable_legs t size legs ≡ true
      → (legs ≢ []) × All (λ leg. size <? min_order_usd_for t leg.venue_id ≡ false) legs
  fillable_legs-clear ordered t size [] n e = cc
  fillable_legs-clear ordered t size (leg ∷ legs) n e =
      let least = min_order_usd_for t leg.venue_id in
      let bound = required t least legs in
      let over : size <? bound ≡ false =
        ground (arith, ordered.lt_asym bound size, ordered.eq_not_gt bound size) in
      (λ q. cc, required_bounds ordered t least size legs n (n leg.venue_id) over)

  pub fillable-Clears :
      (ordered : IsOrdered F) (t : Venues F) (o : Opportunity F)
      → ((venue : String) → IsNum (min_order_usd_for t venue))
      → is_fillable t o ≡ true
      → Clears t o
  unfolding is_fillable
  fillable-Clears ordered t o n h = fillable_legs-clear ordered t o.max_size_usd o.legs n h

  side-MovesAsset :
      (t : Venues F) (side : Side) (venue : String) (split : Option (String × String)) (leg : Leg F)
      → leg.side ≡ side
      → leg.venue_id ≡ venue
      → spot_moves t leg split ≡ true
      → MovesAsset t side venue split
  side-MovesAsset t side venue none leg s v h = tt
  side-MovesAsset t Side.buy venue (some (base, quote)) leg s v h = rw (s, v) at h
  side-MovesAsset t Side.sell venue (some (base, quote)) leg s v h = rw (s, v) at h
  side-MovesAsset t Side.transfer venue (some (base, quote)) leg s v h = tt

  legs_move-All :
      (t : Venues F) (legs : List (Leg F))
      → legs_move t legs ≡ true
      → All (λ l. MovesAsset t l.side l.venue_id (split_slash l.symbol)) legs
  unfolding legs_move
  legs_move-All t [] h = tt
  legs_move-All t (l ∷ legs) h = elim (Bool-cases (spot_moves t l (split_slash l.symbol))) [
    | inl e ↦ (
      side-MovesAsset t l.side l.venue_id (split_slash l.symbol) l refl refl e,
      legs_move-All t legs (rw e at h),
    )
    | inr e ↦ cc (rw e at h)
  ]

  pub rebalanceable-Rebalances :
      (t : Venues F) (o : Opportunity F) → is_rebalanceable t o ≡ true → Rebalances t o.legs
  unfolding is_rebalanceable
  rebalanceable-Rebalances t o h =
      let buys = venues_of is_buy o.legs in
      let sells = venues_of is_sell o.legs in
      elim (Bool-cases (is_nil buys)) [
        | inl e ↦ inl (λ v a. none_held buys v e (venue_listed is_buy Side.buy v o.legs refl a))
        | inr e ↦ elim (Bool-cases (subset buys sells && subset sells buys)) [
          | inl k ↦
              let (there, back) = and_true k in
              inr (
                inl (λ v. (
                  λ a. listed_venue is_sell Side.sell v o.legs only_sell (
                      subset_found buys sells v there
                        (venue_listed is_buy Side.buy v o.legs refl a)),
                  λ a. listed_venue is_buy Side.buy v o.legs only_buy (
                      subset_found sells buys v back
                        (venue_listed is_sell Side.sell v o.legs refl a)),
                )))
          | inr k ↦ inr (inr (legs_move-All t o.legs (rw (e, k) at h)))
        ]
      ]
