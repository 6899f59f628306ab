-- ===== src/Strategies/Gather.antt =====
-- What holds of every opportunity that a part of a scan finds holds of what the scan returns.
use crypto_arb_engine.Prelude.{List, [], ◌∷◌, All, All-append}
use crypto_arb_engine.Prelude.Sort.{sort-All}
use crypto_arb_engine.Float.{Float}
use crypto_arb_engine.Core.Types.{Opportunity}
use crypto_arb_engine.Strategies.Shared.{
  concat_map, combinations, pair_with, best_first, by_net_down,
}

module _ {ℓ κ μ} {A : Type ℓ} {B : Type κ} (P : B → Type μ) where
  pub concat_map-All :
      (f : A → List B) (xs : List A) → ((x : A) → All P (f x)) → All P (concat_map f xs)
  unfolding concat_map
  concat_map-All f [] h = tt
  concat_map-All f (x ∷ xs) h = All-append P (f x) _ (h x) (concat_map-All f xs h)

  -- The same, of elements that satisfy `Q`.
  pub concat_map-of-All {ν} :
      {Q : A → Type ν} (f : A → List B) (xs : List A)
      → ((x : A) → Q x → All P (f x))
      → All Q xs
      → All P (concat_map f xs)
  unfolding concat_map
  concat_map-of-All f [] h q = tt
  concat_map-of-All f (x ∷ xs) h (q, qs) =
      All-append P (f x) _ (h x q) (concat_map-of-All f xs h qs)

module _ {ℓ κ} {A : Type ℓ} (P : A → Type κ) where
  pair_with-All : (x : A) (ys : List A) → P x → All P ys → All (λ p. P p.0 × P p.1) (pair_with x ys)
  pair_with-All x [] p ps = tt
  pair_with-All x (y ∷ ys) p (q, qs) = ((p, q), pair_with-All x ys p qs)

  pub combinations-All : (xs : List A) → All P xs → All (λ p. P p.0 × P p.1) (combinations xs)
  unfolding combinations
  combinations-All [] h = tt
  combinations-All (x ∷ xs) (p, ps) =
      All-append _ (pair_with x xs) _ (pair_with-All x xs p ps) (combinations-All xs ps)

pub best_first-All {κ} :
    {F : Type 0} ⦃f : Float F⦄ (P : Opportunity F → Type κ) (os : List (Opportunity F))
    → All P os
    → All P (best_first os)
best_first-All P os h = sort-All by_net_down P os h
