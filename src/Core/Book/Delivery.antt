-- ===== src/Core/Book/Delivery.antt =====
-- Messages that are delivered to the books of a store, each to the book of its venue and symbol.
use crypto_arb_engine.Prelude.{
  ◌≡◌, refl, subst, ◌∙◌, ap, true, Option, none, some, List, [], ◌∷◌, String, Bool-cases,
  Option-cases, inl, inr, or_default, if◌then◌else◌,
}
use crypto_arb_engine.Prelude.Dict.{Key, pair_key, same_refl, lookup, lookup-set}
use crypto_arb_engine.Float.{Float}
use crypto_arb_engine.Core.Book.Defs.{OrderBook, new_book}
use crypto_arb_engine.Core.Book.Store.{
  BookStore, BookKey, get_or_create, find_book, books_for_symbol, modify_book,
}
use crypto_arb_engine.Core.Book.Refines.{Message, receive}
use crypto_arb_engine.Core.Book.Index.{
  IsIndexed, scan_books, books_for_symbol-eq-scan, get_or_create-IsIndexed, modify_book-IsIndexed,
}

-- A message of a venue about a symbol.
pub record Delivery (F : Type 0) : Type 0 where
  pub venue_id : String
  pub symbol : String
  pub message : Message F

module _ {F : Type 0} ⦃f : Float F⦄ ⦃key : Key F⦄ where
  -- The book is created if it is new, and receives the message.
  unfoldable pub deliver : BookStore F → Delivery F → BookStore F
  deliver st d =
      let (st', k) = get_or_create st d.venue_id d.symbol in modify_book (receive d.message) k st'

  unfoldable pub deliver_all : List (Delivery F) → BookStore F → BookStore F
  unfolding deliver
  deliver_all [] st = st
  deliver_all (d ∷ ds) st = deliver_all ds (deliver st d)

  -- What the messages of one venue and symbol make of its book, the others left out.
  unfoldable pub received :
      String → String → List (Delivery F) → Option (OrderBook F) → Option (OrderBook F)
  unfolding receive
  received v s [] book = book
  received v s (d ∷ ds) book = received v s ds (
      if pair_key.same (d.venue_id, d.symbol) (v, s)
      then some (receive d.message (or_default (new_book v s) book))
      else book)

  -- The book that is looked up, by the test on its key.
  at_key :
      (st : BookStore F) (v s : String) (k : BookKey) (o : Option (OrderBook F))
      → lookup (v, s) st.books ≡ o
      → pair_key.same (v, s) k ≡ true
      → lookup k st.books ≡ o
  at_key st v s k o e q = subst (λ j. lookup j st.books ≡ o) ((pair_key.same_iff (v, s) k).0 q) e

  lookup-get_or_create :
      (st : BookStore F) (v s : String) (k : BookKey)
      → lookup k (get_or_create st v s).0.books ≡ (
          if pair_key.same (v, s) k
          then some (or_default (new_book v s) (lookup k st.books))
          else lookup k st.books)
  unfolding get_or_create
  lookup-get_or_create st v s k = elim (Option-cases (lookup (v, s) st.books)) [
    | inl e ↦ elim (Bool-cases (pair_key.same (v, s) k)) [
      | inl q ↦
          rw (get_or_create, e, q)
            (lookup-set (v, s) k (new_book v s) st.books ∙ rw (q, at_key st v s k none e q) refl)
      | inr q ↦ rw (get_or_create, e, q) (lookup-set (v, s) k (new_book v s) st.books ∙ rw q refl)
    ]
    | inr (b, e) ↦ elim (Bool-cases (pair_key.same (v, s) k)) [
      | inl q ↦ rw (get_or_create, e, q) (rw (at_key st v s k (some b) e q) refl)
      | inr q ↦ rw (get_or_create, e, q) refl
    ]
  ]

  lookup-modify_book :
      (m : OrderBook F → OrderBook F) (k j : BookKey) (st : BookStore F) (b : OrderBook F)
      → lookup k st.books ≡ some b
      → lookup j (modify_book m k st).books
        ≡ (if pair_key.same k j then some (m b) else lookup j st.books)
  unfolding modify_book
  lookup-modify_book m k j st b e = rw (modify_book, e) (lookup-set k j (m b) st.books)

  get_or_create-names : (st : BookStore F) (v s : String) → (get_or_create st v s).1 ≡ (v, s)
  unfolding get_or_create
  get_or_create-names st v s = elim (Option-cases (lookup (v, s) st.books)) [
    | inl e ↦ rw (get_or_create, e) refl
    | inr (b, e) ↦ rw (get_or_create, e) refl
  ]

  lookup-deliver :
      (st : BookStore F) (d : Delivery F) (k : BookKey)
      → lookup k (deliver st d).books ≡ (
          if pair_key.same (d.venue_id, d.symbol) k
          then some
              (receive d.message (or_default (new_book d.venue_id d.symbol) (lookup k st.books)))
          else lookup k st.books)
  unfolding deliver
  lookup-deliver st d k =
      let own : BookKey = (d.venue_id, d.symbol) in
      let st' = (get_or_create st d.venue_id d.symbol).0 in
      let old = or_default (new_book d.venue_id d.symbol) (lookup own st.books) in
      let there : lookup own st'.books ≡ some old =
        lookup-get_or_create st d.venue_id d.symbol own ∙ rw (same_refl own) refl in
      ap (λ j. lookup k (modify_book (receive d.message) j st').books)
        (get_or_create-names st d.venue_id d.symbol)
      ∙ lookup-modify_book (receive d.message) own k st' old there
      ∙ elim (Bool-cases (pair_key.same own k)) [
        | inl q ↦ rw q (
            ap
              (λ j.
                some (
                  receive d.message
                    (or_default (new_book d.venue_id d.symbol) (lookup j st.books))))
              ((pair_key.same_iff own k).0 q))
        | inr q ↦ rw q (lookup-get_or_create st d.venue_id d.symbol k ∙ rw q refl)
      ]

  deliver-IsIndexed : (st : BookStore F) (d : Delivery F) → IsIndexed st → IsIndexed (deliver st d)
  unfolding deliver
  deliver-IsIndexed st d h =
      modify_book-IsIndexed (receive d.message) _ _
        (get_or_create-IsIndexed st d.venue_id d.symbol h).0

  find_book-deliver_all :
      (ds : List (Delivery F)) (st : BookStore F) (v s : String)
      → find_book (deliver_all ds st) v s ≡ received v s ds (find_book st v s)
  unfolding deliver_all received find_book
  find_book-deliver_all [] st v s = refl
  find_book-deliver_all (d ∷ ds) st v s =
      find_book-deliver_all ds (deliver st d) v s
      ∙ ap (received v s ds) (
          lookup-deliver st d (v, s)
          ∙ elim (Bool-cases (pair_key.same (d.venue_id, d.symbol) (v, s))) [
            | inl q ↦ rw q (
                ap
                  (λ (j : BookKey).
                    some (receive d.message (or_default (new_book j.0 j.1) (find_book st v s))))
                  ((pair_key.same_iff (d.venue_id, d.symbol) (v, s)).0 q))
            | inr q ↦ rw q refl
          ])

  pub deliver_all-IsIndexed :
      (ds : List (Delivery F)) (st : BookStore F) → IsIndexed st → IsIndexed (deliver_all ds st)
  unfolding deliver_all
  deliver_all-IsIndexed [] st h = h
  deliver_all-IsIndexed (d ∷ ds) st h =
      deliver_all-IsIndexed ds (deliver st d) (deliver-IsIndexed st d h)

  abbrev pub empty_store : BookStore F
  empty_store = record { books = []; by_symbol = [] }

  -- After any messages on an empty store, the book of a venue and symbol is a new book that received just
  -- the messages of that venue and symbol, in their order, and there is none if none came; and the lookup
  -- by symbol gives what a scan of every book of the store gives, in that order.
  pub deliver_all_lem :
      (ds : List (Delivery F)) (venue_id symbol : String)
      → let st = deliver_all ds empty_store in
        (find_book st venue_id symbol ≡ received venue_id symbol ds none)
        × (books_for_symbol st symbol ≡ scan_books symbol st.books)
  unfolding find_book lookup
  deliver_all_lem ds venue_id symbol = (
    find_book-deliver_all ds empty_store venue_id symbol,
    books_for_symbol-eq-scan _ symbol
        (deliver_all-IsIndexed ds empty_store (record { once = tt; indexed = λ s. refl })),
  )
