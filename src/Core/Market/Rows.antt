-- ===== src/Core/Market/Rows.antt =====
-- What a matrix holds, and that it is built once.
use crypto_arb_engine.Prelude.{
  ◌≡◌, ◌≢◌, refl, ◌∙◌, ap, subst, true, false, Option, none, some, List, [], ◌∷◌, String, Any, All,
  All-imp, arith, Bool-cases, inl, inr,
}
use crypto_arb_engine.Prelude.Dict.{Dict, string_key, lookup, lookup-set, same_refl}
use crypto_arb_engine.Float.{Float, ◌⊖◌, ◌<?◌, ◌==?◌, nought}
use crypto_arb_engine.Core.Book.{
  BookKey, BookState, OrderBook, BookStore, books_for_symbol, best_bid, best_ask, best_bid_size,
  best_ask_size,
}
use crypto_arb_engine.Core.Book.Index.{IsIndexed, scan_books, books_for_symbol-eq-scan}
use crypto_arb_engine.Core.Market.Defs.{
  MarketState, SymbolMatrix, Row, has_levels, usable, rows_of, answer, matrix_for_symbol,
}

module _ {F : Type 0} ⦃f : Float F⦄ where
  -- The book was updated, not longer ago than the limit, and has both sides.
  pub record IsFresh (now staleness_sec : F) (st : BookState F) : Type 0 where
    pub updated : st.timestamp ==? nought ≡ false
    pub recent : staleness_sec <? (now ⊖ st.timestamp) ≡ false
    pub has_bids : st.bids ≢ []
    pub has_asks : st.asks ≢ []

  some_levels : (levels : List (F × F)) → has_levels levels ≡ true → levels ≢ []
  some_levels [] h e = cc
  some_levels (l ∷ levels) h e = cc

  usable-IsFresh :
      (now stale : F) (st : BookState F) → usable now stale st ≡ true → IsFresh now stale st
  unfolding usable
  usable-IsFresh now stale st h = record {
    updated = ground arith;
    recent = ground arith;
    has_bids = some_levels st.bids (ground arith);
    has_asks = some_levels st.asks (ground arith);
  }

  -- The row is the top of the book, which is fresh and has both sides.
  pub record IsTop (now staleness_sec : F) (row : Row F) (b : OrderBook F) : Type 0 where
    pub fresh : IsFresh now staleness_sec b.state
    pub venue_id : row.venue_id ≡ b.venue_id
    pub bid : (row.bid_price ≡ best_bid b.state) × (row.bid_size ≡ best_bid_size b.state)
    pub ask : (row.ask_price ≡ best_ask b.state) × (row.ask_size ≡ best_ask_size b.state)
    pub timestamp : row.timestamp ≡ b.state.timestamp

  rows_of-IsTop :
      (now stale : F) (books : List (OrderBook F))
      → All (λ r. Any (IsTop now stale r) books) (rows_of now stale books)
  unfolding rows_of
  rows_of-IsTop now stale [] = tt
  rows_of-IsTop now stale (b ∷ books) =
      let rest =
        All-imp (rows_of now stale books) (λ r h. Any.there h) (rows_of-IsTop now stale books) in
      elim (Bool-cases (usable now stale b.state)) [
        | inl e ↦ rw e (
          Any.here (record {
            fresh = usable-IsFresh now stale b.state e;
            venue_id = refl;
            bid = (refl, refl);
            ask = (refl, refl);
            timestamp = refl;
          }),
          rest,
        )
        | inr e ↦ rw e rest
      ]

  -- The row is the top of a book that the store holds under that symbol.
  abbrev pub IsTopOf : (now staleness_sec : F) → BookStore F → String → Row F → Type 0
  IsTopOf now staleness_sec store symbol row =
      Any (λ e. (e.0.1 ≡ symbol) × IsTop now staleness_sec row e.1) store.books

  scanned :
      (P : OrderBook F → Type 0) (symbol : String) (d : Dict BookKey (OrderBook F))
      → Any P (scan_books symbol d)
      → Any (λ e. (e.0.1 ≡ symbol) × P e.1) d
  scanned P symbol [] a = elim a [ ]
  scanned P symbol ((k, b) ∷ d) a = elim (Bool-cases (string_key.same k.1 symbol)) [
    | inr e ↦ Any.there (scanned P symbol d (rw e at a))
    | inl e ↦
        let first : Any P (b ∷ scan_books symbol d) = rw e at a in
        elim first [
          | Any.here p ↦ Any.here ((string_key.same_iff k.1 symbol).0 e, p)
          | Any.there more ↦ Any.there (scanned P symbol d more)
        ]
  ]

  rows_of-IsTopOf :
      (now stale : F) (store : BookStore F) (symbol : String)
      → IsIndexed store
      → All (IsTopOf now stale store symbol) (rows_of now stale (books_for_symbol store symbol))
  rows_of-IsTopOf now stale store symbol indexed =
      All-imp _
        (λ r a.
          scanned (IsTop now stale r) symbol store.books
            (subst (Any (IsTop now stale r)) (books_for_symbol-eq-scan store symbol indexed) a))
        (rows_of-IsTop now stale (books_for_symbol store symbol))

  answer_kept :
      (symbol : String) (built : SymbolMatrix F) (o : Option (SymbolMatrix F)) (m : MarketState F)
      → lookup symbol m.matrix_cache ≡ o
      → lookup symbol (answer symbol built o m).0.matrix_cache ≡ some (answer symbol built o m).1
  answer_kept symbol built (some cached) m h = h
  answer_kept symbol built none m h =
      lookup-set symbol symbol built m.matrix_cache ∙ rw (same_refl symbol) refl

  answer_built :
      (symbol : String) (built : SymbolMatrix F) (o : Option (SymbolMatrix F)) (m : MarketState F)
      → o ≡ none
      → built ≡ (answer symbol built o m).1
  answer_built symbol built none m h = refl
  answer_built symbol built (some cached) m h = cc

  -- In a store whose index is right, each row of the first call for a symbol is the top of a book that
  -- stands under that symbol, was updated not longer ago than the limit, and has both sides; a later
  -- call on the same snapshot, however late, gives the same matrix and changes nothing.
  pub matrix_for_symbol_lem :
      (now later : F) (symbol : String) (m : MarketState F)
      → IsIndexed m.book_store
      → let (m', matrix) = matrix_for_symbol now symbol m in
        (lookup symbol m.matrix_cache ≡ none
          → All (IsTopOf now m.staleness_sec m.book_store symbol) matrix)
        × (matrix_for_symbol later symbol m' ≡ (m', matrix))
  unfolding matrix_for_symbol
  matrix_for_symbol_lem now later symbol m indexed =
      let built = rows_of now m.staleness_sec (books_for_symbol m.book_store symbol) in
      let o = lookup symbol m.matrix_cache in
      let m' = (answer symbol built o m).0 in
      (
        λ h.
            subst (All (IsTopOf now m.staleness_sec m.book_store symbol))
              (answer_built symbol built o m h)
              (rows_of-IsTopOf now m.staleness_sec m.book_store symbol indexed),
        ap
            (λ p.
              answer symbol (rows_of later m'.staleness_sec (books_for_symbol m'.book_store symbol))
                p m')
            (answer_kept symbol built o m refl),
      )
