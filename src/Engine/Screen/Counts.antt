-- ===== src/Engine/Screen/Counts.antt =====
-- What is kept of the reported opportunities, and what is counted.
use crypto_arb_engine.Prelude.{
  ◌≡◌, refl, ℕ, zero, suc, ◌+◌, true, List, [], ◌∷◌, map, String, length, All, if◌then◌else◌,
  Bool-cases, Option-cases, inl, inr, arith,
}
use crypto_arb_engine.Prelude.Dict.{Dict, string_key, get, lookup, lookup-set, set}
use crypto_arb_engine.Float.{Float, ◌<?◌, IsNum, IsOrdered}
use crypto_arb_engine.Core.Types.{Opportunity}
use crypto_arb_engine.Core.Route.{Stop, route_equality}
use crypto_arb_engine.Config.Venues.{Venues, min_order_usd_for}
use crypto_arb_engine.Analytics.Metrics.{Metrics, record_hit, record_rejection}
use crypto_arb_engine.Engine.Filters.{
  is_fillable, is_rebalanceable, route_key, note, dedupe_loop, dedupe_by_route,
}
use crypto_arb_engine.Engine.Filters.Routes.{dedupe_by_route_counts}
use crypto_arb_engine.Engine.Screen.Passed.{Passed, fillable-Clears, rebalanceable-Rebalances}
use crypto_arb_engine.Engine.Screen.{screened, screen, count_duplicates, count_hits, survey}

module _ {F : Type 0} ⦃f : Float F⦄ where
  -- The rejections of the three kinds that come before the router.
  abbrev pub dropped : Metrics F → ℕ
  dropped m =
      get 0 "too_thin_to_fill" m.rejections
      + get 0 "asset_cannot_be_transferred" m.rejections
      + get 0 "duplicate_route" m.rejections

  get-bump :
      (k j : String) (m : Metrics F)
      → get 0 j (record_rejection k m).rejections
        ≡ (if string_key.same k j then get 0 k m.rejections + 1 else get 0 j m.rejections)
  unfolding record_rejection
  get-bump k j m =
      rw (lookup-set {K = String} k j (get 0 k m.rejections + 1) m.rejections)
        (elim (Bool-cases (string_key.same k j)) [ inl e ↦ rw e refl | inr e ↦ rw e refl ])

  thin_counts : (m : Metrics F) → dropped (record_rejection "too_thin_to_fill" m) ≡ dropped m + 1
  thin_counts m =
      let same = λ (j : String). get-bump "too_thin_to_fill" j m in
      omega
        (arith, same "too_thin_to_fill", same "asset_cannot_be_transferred", same "duplicate_route")

  stuck_counts :
      (m : Metrics F) → dropped (record_rejection "asset_cannot_be_transferred" m) ≡ dropped m + 1
  stuck_counts m =
      let same = λ (j : String). get-bump "asset_cannot_be_transferred" j m in
      omega
        (arith, same "too_thin_to_fill", same "asset_cannot_be_transferred", same "duplicate_route")

  duplicate_counts :
      (m : Metrics F) → dropped (record_rejection "duplicate_route" m) ≡ dropped m + 1
  duplicate_counts m =
      let same = λ (j : String). get-bump "duplicate_route" j m in
      omega
        (arith, same "too_thin_to_fill", same "asset_cannot_be_transferred", same "duplicate_route")

  count_duplicates_counts : (n : ℕ) (m : Metrics F) → dropped (count_duplicates n m) ≡ dropped m + n
  unfolding count_duplicates
  count_duplicates_counts zero m = omega arith
  count_duplicates_counts (suc n) m =
      omega (
        arith,
        count_duplicates_counts n (record_rejection "duplicate_route" m),
        duplicate_counts m,
      )

  count_hits-drops :
      (os : List (Opportunity F)) (m : Metrics F) → dropped (count_hits os m) ≡ dropped m
  unfolding count_hits record_hit
  count_hits-drops [] m = refl
  count_hits-drops (o ∷ os) m = count_hits-drops os (record_hit o.strategy true m)

  screen_counts :
      (ordered : IsOrdered F) (t : Venues F) (os : List (Opportunity F)) (m : Metrics F)
      → ((venue : String) → IsNum (min_order_usd_for t venue))
      → (length (screen t os m).0 + dropped (screen t os m).1 ≡ dropped m + length os)
        × All (Passed t) (screen t os m).0
  unfolding screen screened
  screen_counts ordered t [] m h = (omega arith, tt)
  screen_counts ordered t (o ∷ os) m h = elim (Bool-cases (is_fillable t o)) [
    | inl a ↦ elim (Bool-cases (is_rebalanceable t o)) [
      | inl b ↦
          let (n, ps) = screen_counts ordered t os m h in
          rw (a, b)
            (
              omega (arith, n),
              ((fillable-Clears ordered t o h a, rebalanceable-Rebalances t o b), ps),
            )
      | inr b ↦
          let (n, ps) =
            screen_counts ordered t os (record_rejection "asset_cannot_be_transferred" m) h in
          rw (a, b) (omega (arith, n, stuck_counts m), ps)
    ]
    | inr a ↦
        let (n, ps) = screen_counts ordered t os (record_rejection "too_thin_to_fill" m) h in
        rw a (omega (arith, n, thin_counts m), ps)
  ]

  -- Every opportunity of a table of routes has the property.
  abbrev Holds : (Opportunity F → Type 0) → Dict (List Stop) (Opportunity F) → Type 0
  Holds P d = All P (map (λ e. e.1) d)

  set-Holds :
      (P : Opportunity F → Type 0) (k : List Stop) (o : Opportunity F)
      (d : Dict (List Stop) (Opportunity F))
      → P o
      → Holds P d
      → Holds P (set k o d)
  unfolding set
  set-Holds P k o [] p h = (p, tt)
  set-Holds P k o ((j, v) ∷ d) p (q, h) = elim (Bool-cases (route_equality.same j k)) [
    | inl e ↦ rw e (p, h)
    | inr e ↦ rw e (q, set-Holds P k o d p h)
  ]

  note-Holds :
      (P : Opportunity F → Type 0) (o : Opportunity F) (s : Dict (List Stop) (Opportunity F) × ℕ)
      → P o
      → Holds P s.0
      → Holds P (note o (lookup (route_key o) s.0) s).0
  note-Holds P o s p h = elim (Option-cases (lookup (route_key o) s.0)) [
    | inl e ↦ rw e (set-Holds P (route_key o) o s.0 p h)
    | inr e ↦ rw e.1 (elim (Bool-cases (e.0.net_profit_pct <? o.net_profit_pct)) [
      | inl k ↦ rw k (set-Holds P (route_key o) o s.0 p h)
      | inr k ↦ rw k h
    ])
  ]

  dedupe_loop-Holds :
      (P : Opportunity F → Type 0) (os : List (Opportunity F))
      (s : Dict (List Stop) (Opportunity F) × ℕ)
      → All P os
      → Holds P s.0
      → Holds P (dedupe_loop os s).0
  unfolding dedupe_loop
  dedupe_loop-Holds P [] s ps h = h
  dedupe_loop-Holds P (o ∷ os) s (p, ps) h =
      dedupe_loop-Holds P os (note o (lookup (route_key o) s.0) s) ps (note-Holds P o s p h)

  dedupe_by_route-All :
      (P : Opportunity F → Type 0) (os : List (Opportunity F))
      → All P os
      → All P (dedupe_by_route os).0
  unfolding dedupe_by_route
  dedupe_by_route-All P os ps = dedupe_loop-Holds P os ([], 0) ps tt

  -- Where the venues' minimums are numbers: each reported opportunity is kept or counted, once, as too
  -- thin, as an asset that cannot be transferred, or as a duplicate of a route; and every opportunity
  -- that is kept has legs and a size not below the minimum of any leg's venue, and either buys nothing,
  -- or buys at the same venues at which it sells, or of each leg the asset that is bought can be
  -- withdrawn and the asset that is sold can be deposited.
  pub survey_counts :
      (ordered : IsOrdered F) (t : Venues F) (found : List (Opportunity F)) (m : Metrics F)
      → ((venue : String) → IsNum (min_order_usd_for t venue))
      → let (kept, after) = survey t found m in
        (length kept + dropped after ≡ dropped m + length found) × All (Passed t) kept
  unfolding survey
  survey_counts ordered t found m h =
      let (n, ps) = screen_counts ordered t found m h in
      let fillable = (screen t found m).0 in
      let (kept, duplicates) = dedupe_by_route fillable in
      let counted = count_duplicates duplicates (screen t found m).1 in
      (
        omega (
          arith,
          n,
          dedupe_by_route_counts fillable,
          count_duplicates_counts duplicates (screen t found m).1,
          count_hits-drops kept counted,
        ),
        dedupe_by_route-All (Passed t) fillable ps,
      )
