-- ===== src/Config/Universe/Ranking.antt =====
-- The ranking of symbols puts earlier tiers first.
use crypto_arb_engine.Prelude.{
  ◌≡◌, refl, ℕ, ◌≤◌, Bool, true, false, String, List, [], ◌∷◌, ◌++◌, All, All-imp, All-split,
  Bool-cases, inl, inr, arith,
}
use crypto_arb_engine.Prelude.Dict.{Dict, string_key, get}
use crypto_arb_engine.Prelude.Sort.{insert, sort, insert-All}
use crypto_arb_engine.Prelude.Text.{partition_slash}
use crypto_arb_engine.Config.Universe.{
  Rank, symbol_rank, rank_before, by_rank, index_or_length, tier_of, tier_priority,
}

module _ {ℓ} {A : Type ℓ} (f : A → ℕ) where
  -- No element has a larger value than a later one.
  abbrev pub Ascends : List A → Type ℓ
  Ascends [] = Unit
  Ascends (x ∷ xs) = All (λ y. f x ≤ f y) xs × Ascends xs

  module _ (before : A → A → Bool) (up : (a b : A) → before a b ≡ true → f a ≤ f b)
      (down : (a b : A) → before a b ≡ false → f b ≤ f a) where
    insert-Ascends : (x : A) (ys : List A) → Ascends ys → Ascends (insert before x ys)
    unfolding insert
    insert-Ascends x [] h = (tt, tt)
    insert-Ascends x (y ∷ ys) (h, hs) = elim (Bool-cases (before y x)) [
      | inl e ↦ rw e (insert-All before (λ z. f y ≤ f z) x ys (up y x e) h, insert-Ascends x ys hs)
      | inr e ↦ rw e ((down y x e, All-imp ys (λ z k. omega (arith, down y x e, k)) h), (h, hs))
    ]

    pub sort-Ascends : (xs : List A) → Ascends (sort before xs)
    unfolding sort
    sort-Ascends [] = tt
    sort-Ascends (x ∷ xs) = insert-Ascends x (sort before xs) (sort-Ascends xs)

  -- What comes first has no larger value than what comes after it.
  pub first_least : (xs ys : List A) → Ascends (xs ++ ys) → All (λ x. All (λ y. f x ≤ f y) ys) xs
  first_least [] ys h = tt
  first_least (x ∷ xs) ys (h, hs) = ((All-split _ xs ys h).1, first_least xs ys hs)

-- The place of a symbol's tier in the order of tiers: that of its base.
abbrev pub tier_place : String → ℕ
tier_place symbol = index_or_length (tier_of (partition_slash symbol).0) tier_priority

rank_up : (a b : Rank) → rank_before a b ≡ true → a.tier ≤ b.tier
unfolding rank_before
rank_up a b h = ground arith

rank_down : (a b : Rank) → rank_before a b ≡ false → b.tier ≤ a.tier
unfolding rank_before
rank_down a b h = ground arith

-- The tier in a symbol's rank is that place.
ranked_tier : (s : String) (n : ℕ) → (symbol_rank s n).tier ≡ tier_place s
unfolding symbol_rank
ranked_tier s n = refl

pub by_rank-Ascends :
    (counts : Dict String ℕ) (symbols : List String)
    → Ascends tier_place (sort (by_rank counts) symbols)
by_rank-Ascends counts symbols =
    sort-Ascends tier_place (by_rank counts)
      (λ a b h. omega (
        arith,
        rank_up (symbol_rank a (get 0 a counts)) (symbol_rank b (get 0 b counts)) h,
        ranked_tier a (get 0 a counts),
        ranked_tier b (get 0 b counts),
      ))
      (λ a b h. omega (
        arith,
        rank_down (symbol_rank a (get 0 a counts)) (symbol_rank b (get 0 b counts)) h,
        ranked_tier a (get 0 a counts),
        ranked_tier b (get 0 b counts),
      ))
      symbols
