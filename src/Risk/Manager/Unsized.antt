-- ===== src/Risk/Manager/Unsized.antt =====
-- Legs without a size do not pass the check of profitability.
use crypto_arb_engine.Prelude.{
  ◌≡◌, refl, Bool, true, false, List, [], ◌∷◌, All, Bool-cases, inl, inr, arith, ◌||◌,
  if◌then◌else◌,
}
use crypto_arb_engine.Float.{Float, IsOrdered, ◌≤?◌, nought}
use crypto_arb_engine.Core.Types.{Leg, Opportunity, is_buy}
use crypto_arb_engine.Core.Book.{BookStore}
use crypto_arb_engine.Risk.Manager.Sizing.{reverify_profitability, reverify_legs, buy_leg}

module _ {F : Type 0} ⦃f : Float F⦄ where
  abbrev pub IsUnsized : Opportunity F → Type 0
  IsUnsized o = All (λ leg. leg.size ≡ nought) o.legs

  module _ (laws : IsOrdered F) where
    open laws use {lt_irrefl, lt_connected, nought_num}

    nought_small : (x : F) → x ≡ nought → (x ≤? nought) ≡ true
    nought_small x h = rw h (
        ground (
          arith,
          lt_connected nought nought nought_num nought_num (lt_irrefl nought) (lt_irrefl nought),
        ))

    buy_leg-size :
        (first : Leg F) (legs : List (Leg F))
        → first.size ≡ nought
        → All (λ leg. leg.size ≡ nought) legs
        → (buy_leg first legs).size ≡ nought
    unfolding buy_leg
    buy_leg-size first [] h hs = h
    buy_leg-size first (leg ∷ legs) h (k, ks) = elim (Bool-cases (is_buy leg.side)) [
      | inl e ↦ rw e k
      | inr e ↦ rw e (buy_leg-size first legs h ks)
    ]

    either_way :
        (a b : Bool) (v : Bool × F) → b ≡ true → (if a || b then (false, nought) else v).0 ≡ false
    either_way true b v h = refl
    either_way false b v h = rw h refl

    unsized_fails :
        (store : BookStore F) (size_usd : F) (legs : List (Leg F))
        → All (λ leg. leg.size ≡ nought) legs
        → (reverify_legs store size_usd legs).0 ≡ false
    unfolding reverify_legs
    unsized_fails store size_usd [] h = refl
    unsized_fails store size_usd (first ∷ rest) (h, hs) =
        let small = nought_small _ (buy_leg-size first (first ∷ rest) h (h, hs)) in
        elim (Bool-cases (size_usd ≤? nought)) [
          | inl e ↦ rw e refl
          | inr e ↦ rw e (either_way _ _ _ small)
        ]

    pub reverify_profitability-unsized :
        (o : Opportunity F) (store : BookStore F) (size_usd : F)
        → IsUnsized o
        → (reverify_profitability o store size_usd).0 ≡ false
    unfolding reverify_profitability
    reverify_profitability-unsized o store size_usd h = unsized_fails store size_usd o.legs h
