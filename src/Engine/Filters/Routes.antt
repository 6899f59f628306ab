-- ===== src/Engine/Filters/Routes.antt =====
-- What the de-duplication keeps.
use crypto_arb_engine.Prelude.{
  ◌≡◌, refl, ℕ, ◌+◌, none, some, List, [], ◌∷◌, map, length, length-append, Bool-cases,
  Option-cases, inl, inr, arith,
}
use crypto_arb_engine.Prelude.Dict.{Dict, lookup, set, set_absent}
use crypto_arb_engine.Float.{Float, ◌<?◌}
use crypto_arb_engine.Core.Types.{Opportunity}
use crypto_arb_engine.Core.Route.{Stop, route_equality}
use crypto_arb_engine.Engine.Filters.{route_key, note, dedupe_loop, dedupe_by_route}

length-map {ℓ κ} :
    {A : Type ℓ} {B : Type κ} (g : A → B) (xs : List A) → length (map g xs) ≡ length xs
length-map g [] = refl
length-map g (x ∷ xs) = omega (arith, length-map g xs)

module _ {F : Type 0} ⦃f : Float F⦄ where
  set_present :
      (k : List Stop) (o : Opportunity F) (d : Dict (List Stop) (Opportunity F)) (i : Opportunity F)
      → lookup k d ≡ some i
      → length (set k o d) ≡ length d
  unfolding lookup set
  set_present k o [] i h = cc
  set_present k o ((j, v) ∷ d) i h = elim (Bool-cases (route_equality.same j k)) [
    | inl e ↦ rw e refl
    | inr e ↦ rw e (omega (arith, set_present k o d i (rw e at h)))
  ]

  set_new :
      (k : List Stop) (o : Opportunity F) (d : Dict (List Stop) (Opportunity F))
      → lookup k d ≡ none
      → length (set k o d) ≡ length d + 1
  set_new k o d h = rw (set_absent k o d h) (length-append d ((k, o) ∷ []))

  note_counts :
      (o : Opportunity F) (s : Dict (List Stop) (Opportunity F) × ℕ)
      → let after = note o (lookup (route_key o) s.0) s in
        length after.0 + after.1 ≡ length s.0 + s.1 + 1
  note_counts o s = elim (Option-cases (lookup (route_key o) s.0)) [
    | inl e ↦ rw e (omega (arith, set_new (route_key o) o s.0 e))
    | inr e ↦ rw e.1 (elim (Bool-cases (e.0.net_profit_pct <? o.net_profit_pct)) [
      | inl k ↦ rw k (omega (arith, set_present (route_key o) o s.0 e.0 e.1))
      | inr k ↦ rw k (omega arith)
    ])
  ]

  dedupe_counts :
      (os : List (Opportunity F)) (s : Dict (List Stop) (Opportunity F) × ℕ)
      → length (dedupe_loop os s).0 + (dedupe_loop os s).1 ≡ length s.0 + s.1 + length os
  unfolding dedupe_loop
  dedupe_counts [] s = omega arith
  dedupe_counts (o ∷ os) s =
      omega (arith, dedupe_counts os (note o (lookup (route_key o) s.0) s), note_counts o s)

  -- The kept opportunities and the dropped duplicates are as many as the opportunities that came in.
  pub dedupe_by_route_counts :
      (os : List (Opportunity F))
      → length (dedupe_by_route os).0 + (dedupe_by_route os).1 ≡ length os
  unfolding dedupe_by_route
  dedupe_by_route_counts os =
      omega (arith, length-map (λ e. e.1) (dedupe_loop os ([], 0)).0, dedupe_counts os ([], 0))
