-- ===== src/Config/Universe/Budget.antt =====
-- Which symbols are polled.
use mathlib.Core.List.{Perm}
use crypto_arb_engine.Prelude.{
  append-nil, ◌≡◌, refl, sym, ◌∙◌, some, Any, Option-cases, ap, subst, ℕ, zero, suc, ◌+◌, ◌≤◌, Bool,
  true, List, [], ◌∷◌, ◌++◌, map, filter, take, String, length, length-take-le, All, All-imp,
  All-and, All-filter, All-take, filter-passes, Bool-cases, inl, inr, arith, if◌then◌else◌, leb,
  ◌==◌, or_default,
}
use crypto_arb_engine.Prelude.Dict.{
  Dict, string_key, lookup, get, set, IsDict, set-IsDict, lookup-set, entries_found,
}
use crypto_arb_engine.Prelude.Sort.{sort, sort-All, sort-perm, length-sort}
use crypto_arb_engine.Config.Universe.Ranking.{Ascends, tier_place, by_rank-Ascends, first_least}
use crypto_arb_engine.Config.Universe.{
  count_listed, count_venues, eligible, by_rank, select_pollable_symbols,
}

-- How often a list holds a symbol: once at most in a venue's set.
unfoldable pub times : String → List String → ℕ
times s [] = 0
times s (x ∷ xs) = let rest = times s xs in if string_key.same x s then suc rest else rest

-- How many venues list a symbol.
unfoldable pub listings : String → Dict String (List String) → ℕ
unfolding times
listings s [] = 0
listings s (v ∷ symbols_by_venue) = times s v.1 + listings s symbols_by_venue

get-count_listed :
    (s : String) (listed : List String) (d : Dict String ℕ)
    → get 0 s (count_listed listed d) ≡ get 0 s d + times s listed
unfolding count_listed times
get-count_listed s [] d = omega arith
get-count_listed s (x ∷ listed) d =
    let step = lookup-set x s (get 0 x d + 1) d in
    ground
      (arith, step, string_key.same_iff x s, get-count_listed s listed (set x (get 0 x d + 1) d))

get-count_venues :
    (s : String) (symbols_by_venue : Dict String (List String)) (d : Dict String ℕ)
    → get 0 s (count_venues symbols_by_venue d) ≡ get 0 s d + listings s symbols_by_venue
unfolding count_venues listings
get-count_venues s [] d = omega arith
get-count_venues s ((v, listed) ∷ symbols_by_venue) d = omega (
  arith,
  get-count_venues s symbols_by_venue (count_listed listed d),
  get-count_listed s listed d,
)

count_listed-IsDict :
    (listed : List String) (d : Dict String ℕ) → IsDict d → IsDict (count_listed listed d)
unfolding count_listed
count_listed-IsDict [] d h = h
count_listed-IsDict (x ∷ listed) d h =
    count_listed-IsDict listed _ (set-IsDict x (get 0 x d + 1) d h)

count_venues-IsDict :
    (symbols_by_venue : Dict String (List String)) (d : Dict String ℕ)
    → IsDict d
    → IsDict (count_venues symbols_by_venue d)
unfolding count_venues
count_venues-IsDict [] d h = h
count_venues-IsDict ((v, listed) ∷ symbols_by_venue) d h =
    count_venues-IsDict symbols_by_venue _ (count_listed-IsDict listed d h)

map-All {ℓ κ μ} :
    {A : Type ℓ} {B : Type κ} (P : B → Type μ) (g : A → B) (xs : List A)
    → All (λ x. P (g x)) xs
    → All P (map g xs)
map-All P g [] h = tt
map-All P g (x ∷ xs) (p, ps) = (p, map-All P g xs ps)

leb_le : (a b : ℕ) → leb a b ≡ true → a ≤ b
leb_le a b h = ground arith

eligible_listed :
    (min_venues : ℕ) (symbols_by_venue : Dict String (List String))
    → All
        (λ s. min_venues ≤ listings s symbols_by_venue)
        (eligible min_venues (count_venues symbols_by_venue []))
unfolding eligible lookup
eligible_listed min_venues symbols_by_venue =
    let counts = count_venues symbols_by_venue [] in
    let passes : String × ℕ → Bool = λ e. leb min_venues e.1 in
    map-All _ (λ e. e.0) (filter passes counts)
      (All-imp (filter passes counts)
        (λ e h.
          let (found, enough) = h in
          omega (
            arith,
            leb_le min_venues e.1 enough,
            ap (or_default 0) found,
            get-count_venues e.0 symbols_by_venue [],
          ))
        (All-and _ _ (filter passes counts)
          (All-filter _ passes counts
            (entries_found counts (count_venues-IsDict symbols_by_venue [] tt)))
          (filter-passes passes counts)))

Any-kept :
    (min_venues n : ℕ) (s : String) (d : Dict String ℕ)
    → lookup s d ≡ some n
    → leb min_venues n ≡ true
    → Any (λ x. x ≡ s) (eligible min_venues d)
unfolding eligible lookup
Any-kept min_venues n s [] h k = cc
Any-kept min_venues n s ((j, v) ∷ d) h k = elim (Bool-cases (string_key.same j s)) [
  | inl e ↦
      let enough : leb min_venues v ≡ true = ground arith in
      rw enough (Any.here ((string_key.same_iff j s).0 e))
  | inr e ↦
      let rest = Any-kept min_venues n s d (rw e at h) k in
      elim (Bool-cases (leb min_venues v)) [ inl y ↦ rw y (Any.there rest) | inr y ↦ rw y rest ]
]

-- A symbol that some venue lists, and enough of them, is eligible.
eligible_complete :
    (min_venues : ℕ) (symbols_by_venue : Dict String (List String)) (s : String)
    → 1 ≤ listings s symbols_by_venue
    → min_venues ≤ listings s symbols_by_venue
    → Any (λ x. x ≡ s) (eligible min_venues (count_venues symbols_by_venue []))
unfolding lookup
eligible_complete min_venues symbols_by_venue s one enough =
    let counts = count_venues symbols_by_venue [] in
    let total : get 0 s counts ≡ listings s symbols_by_venue =
      omega (arith, get-count_venues s symbols_by_venue []) in
    elim (Option-cases (lookup s counts)) [
      | inl e ↦
          let zero_times : 0 ≡ listings s symbols_by_venue = ap (or_default 0) (sym e) ∙ total in
          absurd (omega (arith, zero_times, one))
      | inr e ↦
          let same : e.0 ≡ listings s symbols_by_venue = ap (or_default 0) (sym e.1) ∙ total in
          Any-kept min_venues e.0 s counts e.1 (ground (arith, same, enough))
    ]

left_out {ℓ} : {A : Type ℓ} (n : ℕ) (xs : List A) → (rest : List A) × (take n xs ++ rest ≡ xs)
left_out zero xs = (xs, refl)
left_out (suc n) [] = ([], refl)
left_out (suc n) (x ∷ xs) = let more = left_out n xs in (more.0, ap (λ ys. x ∷ ys) more.1)

-- Every symbol that is selected is listed by at least as many venues as asked for, and every symbol that
-- is listed at all and by that many is eligible. With a budget there are
-- not more of them than it allows. The selected symbols and others that are left out make up all the
-- symbols that are eligible, each as often as it stands there; none that is left out is of an
-- earlier tier than one that is selected; without a budget none is left out.
pub select_pollable_symbols_lem :
    (symbols_by_venue : Dict String (List String)) (max_symbols min_venues : ℕ)
    → let chosen = select_pollable_symbols symbols_by_venue max_symbols min_venues in
      let eligibles = eligible min_venues (count_venues symbols_by_venue []) in
      All (λ s. min_venues ≤ listings s symbols_by_venue) chosen
      × ((s : String)
          → 1 ≤ listings s symbols_by_venue
          → min_venues ≤ listings s symbols_by_venue
          → Any (λ x. x ≡ s) eligibles)
      × (length chosen ≤ (if max_symbols == 0 then length eligibles else max_symbols))
      × ((rest : List String) × Perm (chosen ++ rest) eligibles
          × All (λ x. All (λ y. tier_place x ≤ tier_place y) rest) chosen
          × ((if max_symbols == 0 then length rest else 0) ≡ 0))
unfolding select_pollable_symbols
select_pollable_symbols_lem symbols_by_venue max_symbols min_venues =
    let counts = count_venues symbols_by_venue [] in
    let ranked = sort (by_rank counts) (eligible min_venues counts) in
    let found =
      sort-All (by_rank counts) _ (eligible min_venues counts)
        (eligible_listed min_venues symbols_by_venue) in
    let ascends = by_rank-Ascends counts (eligible min_venues counts) in
    let perm = sort-perm (by_rank counts) (eligible min_venues counts) in
    elim (Bool-cases (max_symbols == 0)) [
      | inl e ↦ rw e (
        found,
        eligible_complete min_venues symbols_by_venue,
        omega (arith, length-sort (by_rank counts) (eligible min_venues counts)),
        (
          [],
          subst (λ xs. Perm xs (eligible min_venues counts)) (sym (append-nil ranked)) perm,
          first_least tier_place ranked []
              (subst (Ascends tier_place) (sym (append-nil ranked)) ascends),
          refl,
        ),
      )
      | inr e ↦ rw e (
        All-take _ max_symbols ranked found,
        eligible_complete min_venues symbols_by_venue,
        length-take-le max_symbols ranked,
        (
          (left_out max_symbols ranked).0,
          subst (λ xs. Perm xs (eligible min_venues counts)) (sym (left_out max_symbols ranked).1)
              perm,
          first_least tier_place (take max_symbols ranked) (left_out max_symbols ranked).0
              (subst (Ascends tier_place) (sym (left_out max_symbols ranked).1) ascends),
          refl,
        ),
      )
    ]
