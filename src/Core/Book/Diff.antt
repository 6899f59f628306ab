-- ===== src/Core/Book/Diff.antt =====
-- The levels as a map from price to size: what `apply_diff` does to it.
use crypto_arb_engine.Prelude.{
  ◌≡◌, refl, ◌∙◌, ap, Option, none, some, List, [], ◌∷◌, Bool-cases, inl, inr, arith, if◌then◌else◌,
}
use crypto_arb_engine.Prelude.Dict.{
  Dict, Key, lookup, set, remove, IsDict, lookup-set, lookup-remove, set-IsDict, remove-IsDict,
}
use crypto_arb_engine.Prelude.Sorted.{lookup-sort, sort-IsDict}
use crypto_arb_engine.Float.{Float, ◌≤?◌, nought}
use crypto_arb_engine.Core.Book.Defs.{
  Level, OrderBook, by_price_down, by_price_up, apply_diff, dict_from, update_levels,
}

module _ {F : Type 0} ⦃f : Float F⦄ ⦃key : Key F⦄ where
  -- The size at a price after a list of updates: what the last update of that price says, and the old
  -- size if there is none. A size that is not positive takes the level away.
  abbrev pub latest : F → List (Level F) → Option F → Option F
  latest p [] old = old
  latest p ((q, s) ∷ updates) old =
      latest p updates (if key.same q p then (if s ≤? nought then none else some s) else old)

  -- No price stands twice on a side.
  pub record IsMap (book : OrderBook F) : Type 0 where
    pub bids_once : IsDict book.state.bids
    pub asks_once : IsDict book.state.asks

  lookup-update_levels :
      (p : F) (updates : List (Level F)) (d : Dict F F)
      → IsDict d
      → (lookup p (update_levels updates d) ≡ latest p updates (lookup p d))
        × IsDict (update_levels updates d)
  unfolding update_levels
  lookup-update_levels p [] d h = (refl, h)
  lookup-update_levels p ((q, s) ∷ updates) d h = elim (Bool-cases (s ≤? nought)) [
    | inl e ↦
        let ih = lookup-update_levels p updates (remove q d) (remove-IsDict q d h) in
        rw e (ih.0 ∙ ap (latest p updates) (lookup-remove q p d h), ih.1)
    | inr e ↦
        let ih = lookup-update_levels p updates (set q s d) (set-IsDict q s d h) in
        rw e (ih.0 ∙ ap (latest p updates) (lookup-set q p s d), ih.1)
  ]

  -- `dict(zip(...))` of levels with no price twice has the same sizes.
  lookup-dict_from :
      (p : F) (d : Dict F F) (levels : List (Level F))
      → IsDict d
      → IsDict levels
      → (lookup p (dict_from d levels)
          ≡ elim (lookup p levels) [ none ↦ lookup p d | some s ↦ some s ])
        × IsDict (dict_from d levels)
  unfolding dict_from lookup
  lookup-dict_from p d [] h k = (refl, h)
  lookup-dict_from p d ((q, s) ∷ levels) h (k, ks) =
      let ih = lookup-dict_from p (set q s d) levels (set-IsDict q s d h) ks in
      (ground (arith, ih.0, lookup-set q p s d, key.same_iff q p, k), ih.1)

  module _ (now : F) (bid_updates ask_updates : List (Level F)) (book : OrderBook F)
      (h : IsMap book) where
    abbrev before_bids : Dict F F
    before_bids = dict_from [] book.state.bids

    abbrev before_asks : Dict F F
    before_asks = dict_from [] book.state.asks

    prior_lookup :
        (p : F) (levels : List (Level F))
        → IsDict levels
        → lookup p (dict_from [] levels) ≡ lookup p levels
    unfolding lookup
    prior_lookup p levels k = ground (arith, (lookup-dict_from p [] levels tt k).0)

    -- `apply_diff` on a book with no price twice on a side leaves none twice.
    pub apply_diff-IsMap : IsMap (apply_diff now bid_updates ask_updates book)
    unfolding apply_diff
    apply_diff-IsMap = record {
      bids_once =
          sort-IsDict by_price_down _
            (lookup-update_levels nought bid_updates before_bids
              (lookup-dict_from nought [] book.state.bids tt h.bids_once).1).1;
      asks_once =
          sort-IsDict by_price_up _
            (lookup-update_levels nought ask_updates before_asks
              (lookup-dict_from nought [] book.state.asks tt h.asks_once).1).1;
    }

    -- For a book with no price twice, the size at each price after `apply_diff` is what the last
    -- update of that price says, and the old size where no update names it, on both sides.
    pub apply_diff_sizes :
        (p : F)
        → let after = (apply_diff now bid_updates ask_updates book).state in
          (lookup p after.bids ≡ latest p bid_updates (lookup p book.state.bids))
          × (lookup p after.asks ≡ latest p ask_updates (lookup p book.state.asks))
    unfolding apply_diff
    apply_diff_sizes p =
        let db = lookup-dict_from p [] book.state.bids tt h.bids_once in
        let da = lookup-dict_from p [] book.state.asks tt h.asks_once in
        let ub = lookup-update_levels p bid_updates before_bids db.1 in
        let ua = lookup-update_levels p ask_updates before_asks da.1 in
        (
          lookup-sort by_price_down p _ ub.1
              ∙ ub.0
              ∙ ap (latest p bid_updates) (prior_lookup p book.state.bids h.bids_once),
          lookup-sort by_price_up p _ ua.1
              ∙ ua.0
              ∙ ap (latest p ask_updates) (prior_lookup p book.state.asks h.asks_once),
        )
