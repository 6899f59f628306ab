-- ===== src/Config/Universe/Listing.antt =====
-- Which pairs are tradeable on a venue.
use crypto_arb_engine.Prelude.{
  ◌≡◌, refl, ◌∙◌, sym, ap, true, false, List, [], ◌∷◌, ◌++◌, String, All, All-append, All-imp, Any,
  Bool-cases, inl, inr, ◌↔◌,
}
use crypto_arb_engine.Prelude.Dict.{string_key}
use crypto_arb_engine.Core.Graph.{member}
use crypto_arb_engine.Config.Universe.{
  TieredSymbol, symbol_of, listed_pairs, tier_of, build_tradeable_symbols,
}

-- The pair is listed, of two different assets of the two lists, and stands in the tier of its base.
pub record IsTradeable (markets quotes bases : List String) (p : TieredSymbol) : Type 0 where
  pub base_known : Any (λ b. b ≡ p.base) bases
  pub quote_known : Any (λ q. q ≡ p.quote) quotes
  pub two_assets : string_key.same p.base p.quote ≡ false
  pub spelled : p.symbol ≡ symbol_of p.base p.quote
  pub listed : member p.symbol markets ≡ true
  pub tiered : p.tier ≡ tier_of p.base

record IsPair (markets quotes : List String) (tier base : String) (p : TieredSymbol) : Type 0 where
  base_is : p.base ≡ base
  quote_known : Any (λ q. q ≡ p.quote) quotes
  two_assets : string_key.same p.base p.quote ≡ false
  spelled : p.symbol ≡ symbol_of p.base p.quote
  listed : member p.symbol markets ≡ true
  tiered : p.tier ≡ tier

IsPair-cons :
    (markets quotes : List String) (tier base q : String) (p : TieredSymbol)
    → IsPair markets quotes tier base p
    → IsPair markets (q ∷ quotes) tier base p
IsPair-cons markets quotes tier base q p h = record {
  base_is = h.base_is;
  quote_known = Any.there h.quote_known;
  two_assets = h.two_assets;
  spelled = h.spelled;
  listed = h.listed;
  tiered = h.tiered;
}

listed_pairs-IsPair :
    (markets : List String) (tier base : String) (quotes : List String)
    → All (IsPair markets quotes tier base) (listed_pairs markets tier base quotes)
unfolding listed_pairs
listed_pairs-IsPair markets tier base [] = tt
listed_pairs-IsPair markets tier base (q ∷ quotes) =
    let rest =
      All-imp (listed_pairs markets tier base quotes) (IsPair-cons markets quotes tier base q)
        (listed_pairs-IsPair markets tier base quotes) in
    elim (Bool-cases (string_key.same base q)) [
      | inl e ↦ rw e rest
      | inr e ↦ rw e (elim (Bool-cases (member (symbol_of base q) markets)) [
        | inr k ↦ rw k rest
        | inl k ↦ rw k (
          record {
            base_is = refl;
            quote_known = Any.here refl;
            two_assets = e;
            spelled = refl;
            listed = k;
            tiered = refl;
          },
          rest,
        )
      ])
    ]

build_tradeable_symbols-IsTradeable :
    (markets quotes bases : List String)
    → All (IsTradeable markets quotes bases) (build_tradeable_symbols markets quotes bases)
unfolding build_tradeable_symbols
build_tradeable_symbols-IsTradeable markets quotes [] = tt
build_tradeable_symbols-IsTradeable markets quotes (base ∷ bases) =
    All-append (IsTradeable markets quotes (base ∷ bases))
      (listed_pairs markets (tier_of base) base quotes) _
      (All-imp (listed_pairs markets (tier_of base) base quotes)
        (λ p h. record {
          base_known = Any.here (sym h.base_is);
          quote_known = h.quote_known;
          two_assets = h.two_assets;
          spelled = h.spelled;
          listed = h.listed;
          tiered = h.tiered ∙ ap tier_of (sym h.base_is);
        })
        (listed_pairs-IsPair markets (tier_of base) base quotes))
      (All-imp (build_tradeable_symbols markets quotes bases)
        (λ p h. record {
          base_known = Any.there h.base_known;
          quote_known = h.quote_known;
          two_assets = h.two_assets;
          spelled = h.spelled;
          listed = h.listed;
          tiered = h.tiered;
        })
        (build_tradeable_symbols-IsTradeable markets quotes bases))

-- Some pair of the list is of these two assets.
abbrev pub Holds : String → String → List TieredSymbol → Type 0
Holds base quote = Any (λ p. (p.base ≡ base) × (p.quote ≡ quote))

pub Any-left {ℓ κ} : {A : Type ℓ} {P : A → Type κ} (xs ys : List A) → Any P xs → Any P (xs ++ ys)
Any-left [] ys a = elim a [ ]
Any-left (x ∷ xs) ys (Any.here h) = Any.here h
Any-left (x ∷ xs) ys (Any.there a) = Any.there (Any-left xs ys a)

pub Any-right {ℓ κ} : {A : Type ℓ} {P : A → Type κ} (xs ys : List A) → Any P ys → Any P (xs ++ ys)
Any-right [] ys a = a
Any-right (x ∷ xs) ys a = Any.there (Any-right xs ys a)

module _ (markets : List String) (base quote : String) (apart : string_key.same base quote ≡ false)
    (listed : member (symbol_of base quote) markets ≡ true) where
  listed_pairs_complete :
      (tier : String) (quotes : List String)
      → Any (λ q. q ≡ quote) quotes
      → Holds base quote (listed_pairs markets tier base quotes)
  unfolding listed_pairs
  listed_pairs_complete tier [] a = elim a [ ]
  listed_pairs_complete tier (q ∷ quotes) (Any.here h) =
      rw (h, apart, listed) (Any.here (refl, refl))
  listed_pairs_complete tier (q ∷ quotes) (Any.there a) =
      let rest = listed_pairs_complete tier quotes a in
      elim (Bool-cases (string_key.same base q)) [
        | inl e ↦ rw e rest
        | inr e ↦ rw e (elim (Bool-cases (member (symbol_of base q) markets)) [
          | inr k ↦ rw k rest
          | inl k ↦ rw k (Any.there rest)
        ])
      ]

  build_tradeable_symbols_complete :
      (quotes bases : List String)
      → Any (λ q. q ≡ quote) quotes
      → Any (λ b. b ≡ base) bases
      → Holds base quote (build_tradeable_symbols markets quotes bases)
  unfolding build_tradeable_symbols
  build_tradeable_symbols_complete quotes [] aq ab = elim ab [ ]
  build_tradeable_symbols_complete quotes (b ∷ bases) aq (Any.here h) =
      Any-left (listed_pairs markets (tier_of b) b quotes) _
        (rw h (listed_pairs_complete (tier_of base) quotes aq))
  build_tradeable_symbols_complete quotes (b ∷ bases) aq (Any.there ab) =
      Any-right (listed_pairs markets (tier_of b) b quotes) _
        (build_tradeable_symbols_complete quotes bases aq ab)

-- Two different assets of the two lists, of which the venue lists the pair.
pub record IsListed (markets quotes bases : List String) (base quote : String) : Type 0 where
  pub base_known : Any (λ b. b ≡ base) bases
  pub quote_known : Any (λ q. q ≡ quote) quotes
  pub two_assets : string_key.same base quote ≡ false
  pub listed : member (symbol_of base quote) markets ≡ true

held-IsListed :
    (markets quotes bases : List String) (base quote : String) (ps : List TieredSymbol)
    → All (IsTradeable markets quotes bases) ps
    → Holds base quote ps
    → IsListed markets quotes bases base quote
held-IsListed markets quotes bases base quote [] h a = elim a [ ]
held-IsListed markets quotes bases base quote (p ∷ ps) (h, hs) (Any.here (b, q)) = record {
  base_known = rw b at h.base_known;
  quote_known = rw q at h.quote_known;
  two_assets = rw (b, q) at h.two_assets;
  listed = rw (h.spelled, b, q) at h.listed;
}
held-IsListed markets quotes bases base quote (p ∷ ps) (h, hs) (Any.there a) =
    held-IsListed markets quotes bases base quote ps hs a

-- Every pair that is built is of a base and another quote of the two lists, is listed by the venue under
-- `BASE/QUOTE`, and stands in the tier of its base; and a pair of two assets is built exactly if they are
-- such a base and quote and the venue lists it.
pub build_tradeable_symbols_lem :
    (markets quotes bases : List String) (base quote : String)
    → All (IsTradeable markets quotes bases) (build_tradeable_symbols markets quotes bases)
      × (Holds base quote (build_tradeable_symbols markets quotes bases)
          ↔ IsListed markets quotes bases base quote)
build_tradeable_symbols_lem markets quotes bases base quote =
    let sound = build_tradeable_symbols-IsTradeable markets quotes bases in
    (
      sound,
      (
        held-IsListed markets quotes bases base quote _ sound,
        λ h.
            build_tradeable_symbols_complete markets base quote h.two_assets h.listed quotes bases
              h.quote_known h.base_known,
      ),
    )
