-- ===== src/Core/Book/Levels.antt =====
-- The order of the levels, and the map from price to size that `apply_diff` maintains.
use crypto_arb_engine.Prelude.{List, [], ◌∷◌, Bool-cases, inl, inr, All}
use crypto_arb_engine.Prelude.Dict.{Dict, Key, set, remove}
use crypto_arb_engine.Prelude.Sort.{sort, IsSorted, sort-IsSorted}
use crypto_arb_engine.Float.{Float, ◌≤?◌, nought, IsNum, IsOrdered}
use crypto_arb_engine.Core.Book.Defs.{
  Level, OrderBook, by_price_down, by_price_up, replace, apply_diff, dict_from, update_levels,
}

module _ {F : Type 0} ⦃f : Float F⦄ where
  -- Bids fall and asks rise from the best level on.
  pub record IsOrderedBook (book : OrderBook F) : Type 0 where
    pub bids_fall : IsSorted by_price_down book.state.bids
    pub asks_rise : IsSorted by_price_up book.state.asks

  abbrev pub HasNumbers : List (Level F) → Type 0
  HasNumbers = All (λ l. IsNum l.0)

  module _ (laws : IsOrdered F) where
    open laws use {lt_asym, lt_weak, neg_num}

    sort_down :
        (levels : List (Level F))
        → HasNumbers levels
        → IsSorted by_price_down (sort by_price_down levels)
    sort_down =
        sort-IsSorted by_price_down (λ l. IsNum l.0) (λ x y. lt_asym _ _)
          (λ x y z n. lt_weak _ _ _ (neg_num y.0 n))

    sort_up :
        (levels : List (Level F))
        → HasNumbers levels
        → IsSorted by_price_up (sort by_price_up levels)
    sort_up =
        sort-IsSorted by_price_up (λ l. IsNum l.0) (λ x y. lt_asym _ _) (λ x y z n. lt_weak _ _ _ n)

    -- `replace` puts both sides of any snapshot in order, bids falling and asks rising, if no price
    -- of it is NaN.
    pub replace-IsOrderedBook :
        (now : F) (bids asks : List (Level F)) (book : OrderBook F)
        → HasNumbers bids
        → HasNumbers asks
        → IsOrderedBook (replace now bids asks book)
    unfolding replace
    replace-IsOrderedBook now bids asks book hb ha = record {
      bids_fall = sort_down bids hb;
      asks_rise = sort_up asks ha;
    }

    module _ ⦃key : Key F⦄ where
      set-HasNumbers : (p s : F) (d : Dict F F) → IsNum p → HasNumbers d → HasNumbers (set p s d)
      unfolding set
      set-HasNumbers p s [] n h = (n, tt)
      set-HasNumbers p s ((q, t) ∷ d) n (h, hs) = elim (Bool-cases (key.same q p)) [
        | inl e ↦ rw e (h, hs)
        | inr e ↦ rw e (h, set-HasNumbers p s d n hs)
      ]

      remove-HasNumbers : (p : F) (d : Dict F F) → HasNumbers d → HasNumbers (remove p d)
      unfolding remove
      remove-HasNumbers p [] h = tt
      remove-HasNumbers p ((q, t) ∷ d) (h, hs) = elim (Bool-cases (key.same q p)) [
        | inl e ↦ rw e hs
        | inr e ↦ rw e (h, remove-HasNumbers p d hs)
      ]

      pub dict_from-HasNumbers :
          (d : Dict F F) (levels : List (Level F))
          → HasNumbers d
          → HasNumbers levels
          → HasNumbers (dict_from d levels)
      unfolding dict_from
      dict_from-HasNumbers d [] h k = h
      dict_from-HasNumbers d ((p, s) ∷ levels) h (k, ks) =
          dict_from-HasNumbers (set p s d) levels (set-HasNumbers p s d k h) ks

      pub update_levels-HasNumbers :
          (updates : List (Level F)) (d : Dict F F)
          → HasNumbers updates
          → HasNumbers d
          → HasNumbers (update_levels updates d)
      unfolding update_levels
      update_levels-HasNumbers [] d k h = h
      update_levels-HasNumbers ((p, s) ∷ updates) d (k, ks) h = elim (Bool-cases (s ≤? nought)) [
        | inl e ↦ rw e (update_levels-HasNumbers updates _ ks (remove-HasNumbers p d h))
        | inr e ↦ rw e (update_levels-HasNumbers updates _ ks (set-HasNumbers p s d k h))
      ]

      -- `apply_diff` leaves both sides in order, bids falling and asks rising, if no price of the
      -- book or of the updates is NaN.
      pub apply_diff-IsOrderedBook :
          (now : F) (bid_updates ask_updates : List (Level F)) (book : OrderBook F)
          → HasNumbers bid_updates
          → HasNumbers ask_updates
          → HasNumbers book.state.bids
          → HasNumbers book.state.asks
          → IsOrderedBook (apply_diff now bid_updates ask_updates book)
      unfolding apply_diff
      apply_diff-IsOrderedBook now bu au book hbu hau hb ha = record {
        bids_fall =
            sort_down _
              (update_levels-HasNumbers bu _ hbu (dict_from-HasNumbers [] book.state.bids tt hb));
        asks_rise =
            sort_up _
              (update_levels-HasNumbers au _ hau (dict_from-HasNumbers [] book.state.asks tt ha));
      }
