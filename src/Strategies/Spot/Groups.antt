-- ===== src/Strategies/Spot/Groups.antt =====
-- The grouping of the scan across quotes lists no symbol twice under one venue and base.
use crypto_arb_engine.Prelude.{
  ◌≡◌, ◌≢◌, refl, sym, subst, Option, none, some, List, [], ◌∷◌, ◌++◌, String, All, All-append,
  All-imp, map, Any, Bool-cases, ◌⊎◌, inl, inr,
}
use crypto_arb_engine.Prelude.Dict.{Dict, string_key, pair_key, lookup, get, set}
use crypto_arb_engine.Prelude.Text.{split_slash}
use crypto_arb_engine.Core.Book.{BookKey, BookStore, deref, books_for_symbol, venues_for_symbol}
use crypto_arb_engine.Core.Graph.{member}
use crypto_arb_engine.Core.Market.{MarketState}
use crypto_arb_engine.Config.Universe.{stablecoins}
use crypto_arb_engine.Strategies.Shared.{combinations, pair_with}
use crypto_arb_engine.Strategies.Spot.CrossQuote.{ByBase, add_venues, group_symbol, group_symbols}

abbrev pub Held : String → List String → Type 0
Held x = Any (λ y. y ≡ x)

-- No text stands twice.
abbrev pub Distinct : List String → Type 0
Distinct [] = Unit
Distinct (x ∷ xs) = (¬ Held x xs) × Distinct xs

Distinct-snoc :
    (x : String) (xs : List String) → Distinct xs → ¬ Held x xs → Distinct (xs ++ (x ∷ []))
Distinct-snoc x [] d n = ((λ a. elim a [ ]), tt)
Distinct-snoc x (y ∷ ys) (k, d) n = (
  λ a. elim (held_snoc y x ys a) [ inl b ↦ k b | inr e ↦ n (Any.here (sym e)) ],
  Distinct-snoc x ys d (λ a. n (Any.there a)),
)
  where
    held_snoc : (z w : String) (zs : List String) → Held z (zs ++ (w ∷ [])) → Held z zs ⊎ (w ≡ z)
    held_snoc z w [] (Any.here e) = inr e
    held_snoc z w [] (Any.there a) = elim a [ ]
    held_snoc z w (u ∷ zs) (Any.here e) = inl (Any.here e)
    held_snoc z w (u ∷ zs) (Any.there a) = elim (held_snoc z w zs a) [
      | inl b ↦ inl (Any.there b)
      | inr e ↦ inr e
    ]

abbrev Group : Type 0
Group = (String × String) × List String

set-All :
    (P : Group → Type 0) (k : String × String) (symbols : List String) (d : ByBase)
    → P (k, symbols)
    → All P d
    → All P (set k symbols d)
unfolding set
set-All P k symbols [] p h = (p, tt)
set-All P k symbols ((j, v) ∷ d) p (h, hs) = elim (Bool-cases (pair_key.same j k)) [
  | inr q ↦ rw q (h, set-All P k symbols d p hs)
  | inl q ↦ rw q (subst (λ i. P (i, symbols)) (sym ((pair_key.same_iff j k).0 q)) p, hs)
]

get-All :
    (P : Group → Type 0) (k : String × String) (d : ByBase)
    → P (k, [])
    → All P d
    → P (k, get [] k d)
unfolding lookup
get-All P k [] p h = p
get-All P k ((j, v) ∷ d) p (h, hs) = elim (Bool-cases (pair_key.same j k)) [
  | inr q ↦ rw q (get-All P k d p hs)
  | inl q ↦ rw q (subst (λ i. P (i, v)) ((pair_key.same_iff j k).0 q) h)
]

-- An entry lists no symbol twice, and none of those that are still to come.
abbrev IsAhead : List String → Group → Type 0
IsAhead todo e = Distinct e.1 × All (λ x. ¬ Held x todo) e.1

-- So does it while `symbol` is added for the venues, and it does not list it where it is still to come.
abbrev IsMid : String → List String → List String → Group → Type 0
IsMid symbol todo venues e = IsAhead todo e × (Held e.0.0 venues → ¬ Held symbol e.1)

add_venues-IsAhead :
    (symbol base : String) (todo venues : List String) (d : ByBase)
    → ¬ Held symbol todo
    → Distinct venues
    → All (IsMid symbol todo venues) d
    → All (IsAhead todo) (add_venues symbol base venues d)
unfolding add_venues
add_venues-IsAhead symbol base todo [] d n v h = All-imp d (λ e m. m.0) h
add_venues-IsAhead symbol base todo (v ∷ venues) d n (once, rest) h =
    let ((apart, ahead), new) =
      get-All (IsMid symbol todo (v ∷ venues)) (v, base) d ((tt, tt), λ a b. elim b [ ]) h in
    add_venues-IsAhead symbol base todo venues _ n rest (
      set-All (IsMid symbol todo venues) (v, base) _ d
        (
          (
            Distinct-snoc symbol (get [] (v, base) d) apart (new (Any.here refl)),
            All-append _ (get [] (v, base) d) _ ahead (n, tt),
          ),
          λ a. absurd (once a),
        )
        (All-imp d (λ e m. (m.0, λ a. m.1 (Any.there a))) h))

module _ {F : Type 0} (m : MarketState F)
    (once : (s : String) → Distinct (venues_for_symbol m.book_store s)) where
  group_symbol-IsAhead :
      (symbol : String) (todo : List String) (parts : Option (String × String)) (d : ByBase)
      → ¬ Held symbol todo
      → All (IsAhead (symbol ∷ todo)) d
      → All (IsAhead todo) (group_symbol m symbol parts d)
  unfolding group_symbol
  group_symbol-IsAhead symbol todo parts d n h = added parts
    where
      fewer : All (IsAhead todo) d
      fewer = All-imp d (λ e a. (a.0, All-imp e.1 (λ x k b. k (Any.there b)) a.1)) h

      unlisted : (e : Group) → All (λ x. ¬ Held x (symbol ∷ todo)) e.1 → ¬ Held symbol e.1
      unlisted (k, []) a b = elim b [ ]
      unlisted (k, x ∷ xs) (a, rest) (Any.here e) = a (Any.here (sym e))
      unlisted (k, x ∷ xs) (a, rest) (Any.there b) = unlisted (k, xs) rest b

      mid : All (IsMid symbol todo (venues_for_symbol m.book_store symbol)) d
      mid =
          All-imp d
            (λ e a. ((a.0, All-imp e.1 (λ x k b. k (Any.there b)) a.1), λ v. unlisted e a.1)) h

      added : (p : Option (String × String)) → All (IsAhead todo) (group_symbol m symbol p d)
      added none = fewer
      added (some (base, quote)) = elim (Bool-cases (member quote stablecoins)) [
        | inr q ↦ rw q fewer
        | inl q ↦ rw q (
            add_venues-IsAhead symbol base todo (venues_for_symbol m.book_store symbol) d n
              (once symbol) mid)
      ]

  group_symbols-IsAhead :
      (symbols : List String) (d : ByBase)
      → Distinct symbols
      → All (IsAhead symbols) d
      → All (λ e. Distinct e.1) (group_symbols m symbols d)
  unfolding group_symbols
  group_symbols-IsAhead [] d n h = All-imp d (λ e a. a.0) h
  group_symbols-IsAhead (s ∷ symbols) d (k, n) h =
      group_symbols-IsAhead symbols _ n (group_symbol-IsAhead s symbols (split_slash s) d k h)

  -- Where no symbol of the snapshot and no venue of a symbol stands twice, no entry lists a symbol twice.
  pub group_symbols-Distinct :
      Distinct m.symbols → All (λ e. Distinct e.1) (group_symbols m m.symbols [])
  group_symbols-Distinct h = group_symbols-IsAhead m.symbols [] h tt

pair_with-apart :
    (x : String) (xs : List String) → ¬ Held x xs → All (λ p. p.0 ≢ p.1) (pair_with x xs)
pair_with-apart x [] n = tt
pair_with-apart x (y ∷ ys) n =
    (λ e. n (Any.here (sym e)), pair_with-apart x ys (λ a. n (Any.there a)))

pub combinations-apart : (xs : List String) → Distinct xs → All (λ p. p.0 ≢ p.1) (combinations xs)
unfolding combinations
combinations-apart [] h = tt
combinations-apart (x ∷ xs) (n, h) =
    All-append _ (pair_with x xs) _ (pair_with-apart x xs n) (combinations-apart xs h)

-- Where no entry of the index names two books of one venue, no venue of a symbol stands twice.
pub venues_for_symbol-Distinct :
    {F : Type 0} (store : BookStore F)
    → All (λ e. Distinct (map (λ b. b.venue_id) (deref store.books e.1))) store.by_symbol
    → (s : String) → Distinct (venues_for_symbol store s)
unfolding venues_for_symbol books_for_symbol lookup
venues_for_symbol-Distinct store h s = at_symbol store.by_symbol h
  where
    at_symbol :
        (d : Dict String (List BookKey))
        → All (λ e. Distinct (map (λ b. b.venue_id) (deref store.books e.1))) d
        → Distinct (map (λ b. b.venue_id) (deref store.books (get [] s d)))
    at_symbol [] k = tt
    at_symbol ((j, keys) ∷ d) (k, ks) = elim (Bool-cases (string_key.same j s)) [
      | inl e ↦ rw e k
      | inr e ↦ rw e (at_symbol d ks)
    ]
