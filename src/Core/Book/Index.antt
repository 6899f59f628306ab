-- ===== src/Core/Book/Index.antt =====
-- `_by_symbol`, the secondary index of `BookStore`, against a scan of the whole table.
use crypto_arb_engine.Prelude.{
  ◌≡◌, refl, sym, ◌∙◌, ap, false, none, some, List, [], ◌∷◌, ◌++◌, Bool-cases, Option-cases, inl,
  inr, arith, if◌then◌else◌, All, String, ◌≢◌,
}
use crypto_arb_engine.Prelude.Dict.{
  Dict, string_key, pair_key, lookup, set, get, IsDict, lookup-set, set-IsDict, set_absent,
  lookup-cons_ne, lookup-cons_self, lookup-set_self,
}
use crypto_arb_engine.Float.{Float}
use crypto_arb_engine.Core.Book.Defs.{OrderBook, new_book}
use crypto_arb_engine.Core.Book.Store.{
  BookStore, BookKey, deref, books_for_symbol, get_or_create, modify_book,
}

module _ {F : Type 0} where
  -- What a scan of `_books` finds for a symbol: the keys, and the books, in order of insertion.
  abbrev pub scan_keys : String → Dict BookKey (OrderBook F) → List BookKey
  scan_keys s [] = []
  scan_keys s ((k, b) ∷ d) =
      let rest = scan_keys s d in if string_key.same k.1 s then k ∷ rest else rest

  abbrev pub scan_books : String → Dict BookKey (OrderBook F) → List (OrderBook F)
  scan_books s [] = []
  scan_books s ((k, b) ∷ d) =
      let rest = scan_books s d in if string_key.same k.1 s then b ∷ rest else rest

  -- No key stands twice, and the index lists for each symbol just the keys that a scan finds.
  pub record IsIndexed (st : BookStore F) : Type 0 where
    pub once : IsDict st.books
    pub indexed : (s : String) → get [] s st.by_symbol ≡ scan_keys s st.books

  absent_key :
      (k : BookKey) (s : String) (d : Dict BookKey (OrderBook F))
      → lookup k d ≡ none
      → All (λ j. pair_key.same k j ≡ false) (scan_keys s d)
  unfolding lookup
  absent_key k s [] h = tt
  absent_key k s ((j, b) ∷ d) h = elim (Bool-cases (string_key.same j.1 s)) [
    | inl e ↦ rw e (
      ground (arith, pair_key.same_iff k j, pair_key.same_iff j k),
      absent_key k s d (ground arith),
    )
    | inr e ↦ rw e (absent_key k s d (ground arith))
  ]

  deref_other :
      (k : BookKey) (b : OrderBook F) (d : Dict BookKey (OrderBook F)) (ks : List BookKey)
      → All (λ j. pair_key.same k j ≡ false) ks
      → deref ((k, b) ∷ d) ks ≡ deref d ks
  deref_other k b d [] h = refl
  deref_other k b d (j ∷ ks) (h, hs) = rw (lookup-cons_ne k j b d h, deref_other k b d ks hs)

  deref_scan :
      (s : String) (d : Dict BookKey (OrderBook F))
      → IsDict d
      → deref d (scan_keys s d) ≡ scan_books s d
  deref_scan s [] h = refl
  deref_scan s ((k, b) ∷ d) (h, hs) =
      let rest : deref ((k, b) ∷ d) (scan_keys s d) ≡ scan_books s d =
        deref_other k b d (scan_keys s d) (absent_key k s d h) ∙ deref_scan s d hs in
      elim (Bool-cases (string_key.same k.1 s)) [
        | inl e ↦ rw (e, lookup-cons_self k b d, rest)
        | inr e ↦ rw e rest
      ]

  -- In an indexed store the lookup by symbol gives what a scan of every book gives, in that order.
  pub books_for_symbol-eq-scan :
      (st : BookStore F) (s : String) → IsIndexed st → books_for_symbol st s ≡ scan_books s st.books
  unfolding books_for_symbol
  books_for_symbol-eq-scan st s h = ap (deref st.books) (h.indexed s) ∙ deref_scan s st.books h.once

  scan_keys-append :
      (s : String) (d : Dict BookKey (OrderBook F)) (k : BookKey) (b : OrderBook F)
      → scan_keys s (d ++ ((k, b) ∷ []))
        ≡ (if string_key.same k.1 s then scan_keys s d ++ (k ∷ []) else scan_keys s d)
  scan_keys-append s [] k b = refl
  scan_keys-append s ((j, c) ∷ d) k b = ground (arith, scan_keys-append s d k b)

  scan_keys-set :
      (s : String) (k : BookKey) (b c : OrderBook F) (d : Dict BookKey (OrderBook F))
      → lookup k d ≡ some b
      → scan_keys s (set k c d) ≡ scan_keys s d
  unfolding lookup set
  scan_keys-set s k b c [] h = cc
  scan_keys-set s k b c ((j, w) ∷ d) h = ground (arith, scan_keys-set s k b c d)

  module _ ⦃f : Float F⦄ where
    new_key_indexed :
        (st : BookStore F) (v s t : String)
        → IsIndexed st
        → lookup (v, s) st.books ≡ none
        → get [] t (set s (get [] s st.by_symbol ++ ((v, s) ∷ [])) st.by_symbol)
          ≡ scan_keys t (set (v, s) (new_book v s) st.books)
    new_key_indexed st v s t h e =
        rw
          (
            set_absent (v, s) (new_book v s) st.books e,
            scan_keys-append t st.books (v, s) (new_book v s),
            lookup-set s t _ st.by_symbol,
          )
          (elim (Bool-cases (string_key.same s t)) [
            | inl q ↦
                let p = (string_key.same_iff s t).0 q in
                rw q (
                  ap (λ (l : List BookKey). l ++ ((v, s) ∷ []))
                    (h.indexed s ∙ ap (λ (x : String). scan_keys x st.books) p))
            | inr q ↦ rw q (h.indexed t)
          ])

    -- `get_or_create` keeps the index of an indexed store right, and the key that it returns names
    -- a book of the store.
    pub get_or_create-IsIndexed :
        (st : BookStore F) (venue_id symbol : String)
        → IsIndexed st
        → let (st', key) = get_or_create st venue_id symbol in
          IsIndexed st' × (lookup key st'.books ≢ none)
    unfolding get_or_create
    get_or_create-IsIndexed st v s h = elim (Option-cases (lookup (v, s) st.books)) [
      | inl e ↦
          rw (e, get_or_create)
            (
              record {
                once = set-IsDict (v, s) (new_book v s) st.books h.once;
                indexed = λ t. new_key_indexed st v s t h e;
              },
              rw lookup-set_self (λ q. cc),
            )
      | inr (b, e) ↦ rw (e, get_or_create) (h, rw e (λ q. cc))
    ]

  -- A change of one book through any reference keeps the index right.
  pub modify_book-IsIndexed :
      (m : OrderBook F → OrderBook F) (key : BookKey) (st : BookStore F)
      → IsIndexed st
      → IsIndexed (modify_book m key st)
  unfolding modify_book
  modify_book-IsIndexed m key st h = elim (Option-cases (lookup key st.books)) [
    | inl e ↦ rw (e, modify_book) h
    | inr (b, e) ↦
        rw (e, modify_book)
          (record {
            once = set-IsDict key (m b) st.books h.once;
            indexed = λ s. h.indexed s ∙ sym (scan_keys-set s key b (m b) st.books e);
          })
  ]
