-- ===== src/Risk/Manager/Recheck.antt =====
-- The check of profitability just before a trade.
use crypto_arb_engine.Prelude.{
  ◌≡◌, refl, sym, ap, inl, inr, Bool, true, false, not, ◌||◌, none, some, List, [], ◌∷◌, all,
  filter, map, Bool-cases, if◌then◌else◌,
}
use crypto_arb_engine.Float.{Float, ◌⊕◌, ◌⊖◌, ◌⊗◌, ◌⊘◌, ◌<?◌, ◌≤?◌, nought, hundred, sum_from}
use crypto_arb_engine.Core.Types.{is_buy, Leg, Opportunity}
use crypto_arb_engine.Core.Book.{BookStore}
use crypto_arb_engine.Risk.Manager.Sizing.{
  buy_leg, leg_fill, walk_legs, verdict, reverify_legs, reverify_profitability,
}

module _ {F : Type 0} ⦃f : Float F⦄ (store : BookStore F) (scale : F) where
  -- Some of a leg fills now, at a positive price.
  abbrev pub fills : Leg F → Bool
  fills leg =
      let fill = leg_fill store leg (leg.size ⊗ scale) in not (fill.1 ≤? nought || fill.0 ≤? nought)

  -- What a leg costs, or brings, with its fee.
  abbrev pub cost_of : Leg F → F
  cost_of leg =
      let fill = leg_fill store leg (leg.size ⊗ scale) in
      fill.0 ⊗ fill.1 ⊕ fill.0 ⊗ fill.1 ⊗ leg.fee

  abbrev pub proceeds_of : Leg F → F
  proceeds_of leg =
      let fill = leg_fill store leg (leg.size ⊗ scale) in
      fill.0 ⊗ fill.1 ⊖ fill.0 ⊗ fill.1 ⊗ leg.fee

  abbrev pub costs : List (Leg F) → List F
  costs legs = map cost_of (filter (λ l. is_buy l.side) legs)

  abbrev pub proceeds : List (Leg F) → List F
  proceeds legs = map proceeds_of (filter (λ l. not (is_buy l.side)) legs)

  -- The loop over the legs makes two sums, over the legs that buy and over the others, if every leg
  -- fills, and fails if one does not.
  pub walk_legs_lem :
      (cost gain : F) (legs : List (Leg F))
      → walk_legs store scale cost gain legs ≡ (
          if all fills legs
          then some (sum_from cost (costs legs), sum_from gain (proceeds legs))
          else none)
  unfolding walk_legs sum_from
  walk_legs_lem cost gain [] = refl
  walk_legs_lem cost gain (l ∷ legs) =
      let fill = leg_fill store l (l.size ⊗ scale) in
      elim (Bool-cases (fill.1 ≤? nought || fill.0 ≤? nought)) [
        | inl e ↦ rw e
        | inr e ↦ rw e (elim (Bool-cases (is_buy l.side)) [
          | inl b ↦ rw b (walk_legs_lem (cost ⊕ cost_of l) gain legs)
          | inr b ↦ rw b (walk_legs_lem cost (gain ⊕ proceeds_of l) legs)
        ])
      ]

module _ {F : Type 0} ⦃f : Float F⦄ where
  -- What a positive answer with the profit `pct` means for these legs.
  abbrev pub Rechecked : BookStore F → F → F → List (Leg F) → Type 0
  Rechecked store size_usd pct [] = ⊥
  Rechecked store size_usd pct (first ∷ rest) =
      let leg = buy_leg first (first ∷ rest) in
      let scale = size_usd ⊘ leg.price ⊘ leg.size in
      let cost = sum_from nought (costs store scale (first ∷ rest)) in
      let gain = sum_from nought (proceeds store scale (first ∷ rest)) in
      (size_usd ≤? nought ≡ false)
      × (all (fills store scale) (first ∷ rest) ≡ true)
      × (cost ≤? nought ≡ false)
      × (nought <? pct ≡ true)
      × (pct ≡ (gain ⊖ cost) ⊘ cost ⊗ hundred)

  verdict_sound :
      (ok : Bool) (cost gain pct : F)
      → verdict (if ok then some (cost, gain) else none) ≡ (true, pct)
      → (ok ≡ true)
        × (cost ≤? nought ≡ false)
        × (nought <? pct ≡ true)
        × (pct ≡ (gain ⊖ cost) ⊘ cost ⊗ hundred)
  unfolding verdict
  verdict_sound false cost gain pct h = cc
  verdict_sound true cost gain pct h = elim (Bool-cases (cost ≤? nought)) [
    | inl e ↦ cc (rw e at h)
    | inr e ↦
        let won : Path (Bool × F)
            (nought <? (gain ⊖ cost) ⊘ cost ⊗ hundred, (gain ⊖ cost) ⊘ cost ⊗ hundred) (true, pct) =
          rw e at h in
        let same : (gain ⊖ cost) ⊘ cost ⊗ hundred ≡ pct = ap (λ (p : Bool × F). p.1) won in
        (refl, e, rw same at (ap (λ (p : Bool × F). p.0) won), sym same)
  ]

  reverify_legs_sound :
      (store : BookStore F) (size_usd pct : F) (legs : List (Leg F))
      → reverify_legs store size_usd legs ≡ (true, pct)
      → Rechecked store size_usd pct legs
  unfolding reverify_legs
  reverify_legs_sound store size_usd pct [] h = cc
  reverify_legs_sound store size_usd pct (first ∷ rest) h =
      let leg = buy_leg first (first ∷ rest) in
      let scale = size_usd ⊘ leg.price ⊘ leg.size in
      elim (Bool-cases (size_usd ≤? nought)) [
        | inl e ↦ cc (rw e at h)
        | inr e ↦ elim (Bool-cases (leg.price ≤? nought || leg.size ≤? nought)) [
          | inl z ↦ cc (rw (e, z) at h)
          | inr z ↦
              let sound =
                verdict_sound (all (fills store scale) (first ∷ rest))
                  (sum_from nought (costs store scale (first ∷ rest)))
                  (sum_from nought (proceeds store scale (first ∷ rest))) pct
                  (rw (e, z, walk_legs_lem store scale nought nought (first ∷ rest)) at h) in
              (e, sound.0, sound.1, sound.2, sound.3)
        ]
      ]

  pub reverify_profitability_sound :
      (o : Opportunity F) (store : BookStore F) (size_usd pct : F)
      → reverify_profitability o store size_usd ≡ (true, pct)
      → Rechecked store size_usd pct o.legs
  unfolding reverify_profitability
  reverify_profitability_sound o store size_usd pct h =
      reverify_legs_sound store size_usd pct o.legs h
