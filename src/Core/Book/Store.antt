-- ===== src/Core/Book/Store.antt =====
-- `BookStore`. A book is one object that both tables refer to: the model names it by its key
-- `(venue_id, symbol)`, so an entry of `_by_symbol` is a list of keys into `_books`.
use crypto_arb_engine.Prelude.{Option, none, some, List, [], ◌∷◌, ◌++◌, map, String, if◌then◌else◌}
use crypto_arb_engine.Prelude.Dict.{Dict, string_key, pair_key, lookup, set, get}
use crypto_arb_engine.Float.{Float}
use crypto_arb_engine.Core.Book.Defs.{OrderBook, new_book}

abbrev pub BookKey : Type 0
BookKey = String × String

pub record BookStore (F : Type 0) : Type 0 where
  pub books : Dict BookKey (OrderBook F)
  pub by_symbol : Dict String (List BookKey)

-- `{... for ... in self._books}`: a set, as a list with no repetition in the order of first sight.
unfoldable pub add_new : List String → String → List String
add_new [] x = x ∷ []
add_new (y ∷ ys) x = let rest = add_new ys x in if string_key.same y x then y ∷ ys else y ∷ rest

unfoldable pub unique : List String → List String → List String
unfolding add_new
unique seen [] = seen
unique seen (x ∷ xs) = unique (add_new seen x) xs

module _ {F : Type 0} where
  abbrev pub push : Option (OrderBook F) → List (OrderBook F) → List (OrderBook F)
  push none rest = rest
  push (some b) rest = b ∷ rest

  -- The books that a list of references names.
  abbrev pub deref : Dict BookKey (OrderBook F) → List BookKey → List (OrderBook F)
  deref d [] = []
  deref d (k ∷ ks) = push (lookup k d) (deref d ks)

  unfoldable pub find_book : BookStore F → String → String → Option (OrderBook F)
  find_book st venue_id symbol = lookup (venue_id, symbol) st.books

  unfoldable pub books_for_symbol : BookStore F → String → List (OrderBook F)
  books_for_symbol st symbol = deref st.books (get [] symbol st.by_symbol)

  unfoldable pub venues_for_symbol : BookStore F → String → List String
  venues_for_symbol st symbol = map (λ b. b.venue_id) (books_for_symbol st symbol)

  unfoldable pub all_symbols : BookStore F → List String
  unfolding unique
  all_symbols st = unique [] (map (λ e. e.0.1) st.books)

  unfoldable pub all_venues : BookStore F → List String
  unfolding unique
  all_venues st = unique [] (map (λ e. e.0.0) st.books)

  -- `get_or_create`: the store afterwards, and the key of the book returned.
  unfoldable pub get_or_create :
      ⦃f : Float F⦄ → BookStore F → String → String → BookStore F × BookKey
  get_or_create st venue_id symbol =
      let key : BookKey = (venue_id, symbol) in
      elim (lookup key st.books) [
        | some b ↦ (st, key)
        | none ↦ (
          record {
            books = set key (new_book venue_id symbol) st.books;
            by_symbol = set symbol (get [] symbol st.by_symbol ++ (key ∷ [])) st.by_symbol;
          },
          key,
        )
      ]

  -- A method of the book that `key` names, called through any reference to it.
  unfoldable pub modify_book : (OrderBook F → OrderBook F) → BookKey → BookStore F → BookStore F
  modify_book m key st = elim (lookup key st.books) [
    | none ↦ st
    | some b ↦ record st { books = set key (m b) st.books }
  ]
