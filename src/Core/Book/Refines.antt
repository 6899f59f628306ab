-- ===== src/Core/Book/Refines.antt =====
-- A book under the messages of a feed, and the abstract book that it implements: a size for each price.
use mathlib.Core.Path.{fun_ext}
use crypto_arb_engine.Prelude.{◌≡◌, refl, ◌∙◌, ap, Option, none, List, [], ◌∷◌, String, All}
use crypto_arb_engine.Prelude.Dict.{Key, lookup, IsDict}
use crypto_arb_engine.Prelude.Sort.{sort-All}
use crypto_arb_engine.Prelude.Sorted.{lookup-sort, sort-IsDict}
use crypto_arb_engine.Float.{Float, IsOrdered}
use crypto_arb_engine.Core.Book.Defs.{
  Level, OrderBook, by_price_down, by_price_up, new_book, replace, apply_diff,
}
use crypto_arb_engine.Core.Book.Levels.{
  IsOrderedBook, HasNumbers, replace-IsOrderedBook, apply_diff-IsOrderedBook, dict_from-HasNumbers,
  update_levels-HasNumbers,
}
use crypto_arb_engine.Core.Book.Diff.{latest, IsMap, apply_diff_sizes, apply_diff-IsMap}

-- A message of a feed, received at a time.
pub data Message (F : Type 0) : Type 0 where
  snapshot : (now : F) → (bids asks : List (Level F)) → Message F
  diff : (now : F) → (bid_updates ask_updates : List (Level F)) → Message F

-- The size at each price, on the side of the bids and on that of the asks.
pub record Sizes (F : Type 0) : Type 0 where
  pub bid : F → Option F
  pub ask : F → Option F

module _ {F : Type 0} ⦃f : Float F⦄ ⦃key : Key F⦄ where
  -- What a message does to a book, and to the sizes.
  unfoldable pub receive : Message F → OrderBook F → OrderBook F
  unfolding replace apply_diff
  receive (Message.snapshot now bids asks) book = replace now bids asks book
  receive (Message.diff now bid_updates ask_updates) book =
      apply_diff now bid_updates ask_updates book

  unfoldable pub receive_sizes : Message F → Sizes F → Sizes F
  unfolding lookup
  receive_sizes (Message.snapshot now bids asks) s = record {
    bid = λ p. lookup p bids;
    ask = λ p. lookup p asks;
  }
  receive_sizes (Message.diff now bid_updates ask_updates) s = record {
    bid = λ p. latest p bid_updates (s.bid p);
    ask = λ p. latest p ask_updates (s.ask p);
  }

  unfoldable pub receive_all : List (Message F) → OrderBook F → OrderBook F
  unfolding receive
  receive_all [] book = book
  receive_all (m ∷ ms) book = receive_all ms (receive m book)

  unfoldable pub receive_all_sizes : List (Message F) → Sizes F → Sizes F
  unfolding receive_sizes
  receive_all_sizes [] s = s
  receive_all_sizes (m ∷ ms) s = receive_all_sizes ms (receive_sizes m s)

  -- What a book says of the sizes, whatever the order of its levels.
  unfoldable pub sizes_of : OrderBook F → Sizes F
  unfolding lookup
  sizes_of book = record {
    bid = λ p. lookup p book.state.bids;
    ask = λ p. lookup p book.state.asks;
  }

  -- No price of a message is NaN, and no snapshot names a price twice on a side.
  abbrev pub IsClean : Message F → Type 0
  IsClean (Message.snapshot now bids asks) =
      IsDict bids × IsDict asks × HasNumbers bids × HasNumbers asks
  IsClean (Message.diff now bid_updates ask_updates) =
      HasNumbers bid_updates × HasNumbers ask_updates

  -- A book whose sides are maps in order, from prices that are numbers.
  pub record IsSound (book : OrderBook F) : Type 0 where
    pub ordered : IsOrderedBook book
    pub once : IsMap book
    pub bid_numbers : HasNumbers book.state.bids
    pub ask_numbers : HasNumbers book.state.asks

  same_sizes :
      (s t : Sizes F) → ((p : F) → s.bid p ≡ t.bid p) → ((p : F) → s.ask p ≡ t.ask p) → s ≡ t
  same_sizes s t h k i = record { bid = fun_ext h i; ask = fun_ext k i }

  receive_sizes_of :
      (m : Message F) (book : OrderBook F)
      → IsClean m
      → IsMap book
      → sizes_of (receive m book) ≡ receive_sizes m (sizes_of book)
  unfolding receive receive_sizes sizes_of replace
  receive_sizes_of (Message.snapshot now bids asks) book (b, a, n, k) w =
      same_sizes _ _ (λ p. lookup-sort by_price_down p bids b)
        (λ p. lookup-sort by_price_up p asks a)
  receive_sizes_of (Message.diff now bid_updates ask_updates) book c w =
      same_sizes _ _ (λ p. (apply_diff_sizes now bid_updates ask_updates book w p).0)
        (λ p. (apply_diff_sizes now bid_updates ask_updates book w p).1)

  receive-IsSound :
      IsOrdered F
      → (m : Message F) (book : OrderBook F) → IsClean m
      → IsSound book
      → IsSound (receive m book)
  unfolding receive replace apply_diff
  receive-IsSound laws (Message.snapshot now bids asks) book (b, a, n, k) w = record {
    ordered = replace-IsOrderedBook laws now bids asks book n k;
    once = record {
      bids_once = sort-IsDict by_price_down bids b;
      asks_once = sort-IsDict by_price_up asks a;
    };
    bid_numbers = sort-All by_price_down _ bids n;
    ask_numbers = sort-All by_price_up _ asks k;
  }
  receive-IsSound laws (Message.diff now bid_updates ask_updates) book (n, k) w = record {
    ordered =
        apply_diff-IsOrderedBook laws now bid_updates ask_updates book n k w.bid_numbers
          w.ask_numbers;
    once = apply_diff-IsMap now bid_updates ask_updates book w.once;
    bid_numbers = sort-All by_price_down _ _ (
        update_levels-HasNumbers laws bid_updates _ n
          (dict_from-HasNumbers laws [] book.state.bids tt w.bid_numbers));
    ask_numbers = sort-All by_price_up _ _ (
        update_levels-HasNumbers laws ask_updates _ k
          (dict_from-HasNumbers laws [] book.state.asks tt w.ask_numbers));
  }

  receive_all_refines :
      IsOrdered F
      → (ms : List (Message F)) (book : OrderBook F) → All IsClean ms
      → IsSound book
      → (sizes_of (receive_all ms book) ≡ receive_all_sizes ms (sizes_of book))
        × IsSound (receive_all ms book)
  unfolding receive_all receive_all_sizes
  receive_all_refines laws [] book c w = (refl, w)
  receive_all_refines laws (m ∷ ms) book (c, cs) w =
      let rest =
        receive_all_refines laws ms (receive m book) cs (receive-IsSound laws m book c w) in
      (rest.0 ∙ ap (receive_all_sizes ms) (receive_sizes_of m book c w.once), rest.1)

  -- A new book that receives any snapshots and diffs, in any order, implements the map from price to size
  -- that each snapshot sets and each diff changes at the prices that it names, on either side; and it
  -- keeps no price twice on a side, bids falling and asks rising. The condition is that no price of a
  -- message is NaN and no snapshot names a price twice on a side.
  pub new_book_refines :
      IsOrdered F
      → (venue_id symbol : String) (ms : List (Message F)) → All IsClean ms
      → (sizes_of (receive_all ms (new_book venue_id symbol))
          ≡ receive_all_sizes ms (record { bid = λ p. none; ask = λ p. none }))
        × IsSound (receive_all ms (new_book venue_id symbol))
  unfolding sizes_of lookup
  new_book_refines laws venue_id symbol ms c =
      receive_all_refines laws ms (new_book venue_id symbol) c (record {
        ordered = record { bids_fall = tt; asks_rise = tt };
        once = record { bids_once = tt; asks_once = tt };
        bid_numbers = tt;
        ask_numbers = tt;
      })
