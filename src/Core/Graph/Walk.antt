-- ===== src/Core/Graph/Walk.antt =====
-- The walk along the predecessors comes back: as many steps as there are assets lead into a cycle.
use crypto_arb_engine.Prelude.{
  ◌≡◌, refl, sym, ◌∙◌, ap, ℕ, zero, suc, ◌+◌, ◌-◌, ◌≤◌, ◌⊎◌, true, false, Option, none, some, List,
  [], ◌∷◌, String, length, All, Bool-cases, Option-cases, inl, inr, arith,
}
use crypto_arb_engine.Prelude.Dict.{Dict, string_key}
use crypto_arb_engine.Prelude.Pigeonhole.{Stands, IsDistinct, length-IsDistinct}
use crypto_arb_engine.Core.Graph.Defs.{Edge, member}
use crypto_arb_engine.Core.Graph.Relax.{pred_of, walk_back}

module _ {F : Type 0} (pred : Dict String (Option (Edge F))) where
  abbrev pub Pred : Type 0
  Pred = Dict String (Option (Edge F))

  pub walk_stuck : (n : ℕ) (x : String) → pred_of pred x ≡ none → walk_back pred (suc n) x ≡ none
  unfolding walk_back
  walk_stuck n x h = rw (walk_back, h) refl

  pub walk_step :
      (n : ℕ) (x : String) (e : Edge F)
      → pred_of pred x ≡ some e
      → walk_back pred (suc n) x ≡ walk_back pred n e.src
  unfolding walk_back
  walk_step n x e h = rw (walk_back, h) refl

  pub walk_none : (x : String) → walk_back pred 0 x ≡ some x
  unfolding walk_back
  walk_none x = refl

  walk-add :
      (m n k : ℕ) (x y : String)
      → k ≡ m + n
      → walk_back pred m x ≡ some y
      → walk_back pred k x ≡ walk_back pred n y
  walk-add zero n k x y q h = ground (arith, h, q, walk_none x)
  walk-add (suc m) n zero x y q h = ground (arith, q)
  walk-add (suc m) n (suc k) x y q h = elim (Option-cases (pred_of pred x)) [
    | inl p ↦ ground (arith, h, walk_stuck m x p)
    | inr (e, p) ↦
        walk_step k x e p ∙ walk-add m n k e.src y (omega (arith, q)) (sym (walk_step m x e p) ∙ h)
  ]

  -- The walk comes back to an asset: `ahead` steps lead there, and `around` more lead there again.
  record Recurs (x : String) (n : ℕ) : Type 0 where
    ahead : ℕ
    around : ℕ
    asset : String
    some_around : 1 ≤ around
    in_time : ahead + around ≤ n
    arrives : walk_back pred ahead x ≡ some asset
    returns : walk_back pred around asset ≡ some asset

  -- The assets that `n` steps from `x` pass, in order.
  unfoldable trail : ℕ → String → List String
  trail zero x = x ∷ []
  trail (suc n) x = elim (pred_of pred x) [ none ↦ x ∷ [] | some e ↦ x ∷ trail n e.src ]

  trail_step :
      (n : ℕ) (x : String) (e : Edge F)
      → pred_of pred x ≡ some e
      → trail (suc n) x ≡ x ∷ trail n e.src
  unfolding trail
  trail_step n x e h = rw (trail, h) refl

  trail_none : (x : String) → trail 0 x ≡ x ∷ []
  unfolding trail
  trail_none x = refl

  member-head :
      (x z : String) (xs : List String)
      → member z (x ∷ xs) ≡ true
      → string_key.same x z ≡ false
      → member z xs ≡ true
  unfolding member
  member-head x z xs h q = ground (arith, h, q)

  member-alone : (x z : String) → member z (x ∷ []) ≡ true → x ≡ z
  unfolding member
  member-alone x z h = ground (arith, string_key.same_iff x z, h)

  Passes : ℕ → String → String → Type 0
  Passes n x z = (k : ℕ) × ((k ≤ n) × (walk_back pred k x ≡ some z))

  -- An asset that is on the trail is reached.
  passed :
      (n : ℕ) (x y z : String)
      → walk_back pred n x ≡ some y
      → member z (trail n x) ≡ true
      → Passes n x z
  unfolding Passes
  passed zero x y z w h = (
    0,
    (
      omega arith,
      walk_none x ∙ ap (λ v. some v) (member-alone x z (ap (member z) (sym (trail_none x)) ∙ h)),
    ),
  )
  passed (suc n) x y z w h = elim (Option-cases (pred_of pred x)) [
    | inl p ↦ ground (arith, w, walk_stuck n x p)
    | inr (e, p) ↦ elim (Bool-cases (string_key.same x z)) [
      | inl q ↦ (0, (omega arith, walk_none x ∙ ap (λ v. some v) ((string_key.same_iff x z).0 q)))
      | inr q ↦
          let on =
            member-head x z (trail n e.src) (ap (member z) (sym (trail_step n x e p)) ∙ h) q in
          let found = passed n e.src y z (sym (walk_step n x e p) ∙ w) on in
          (suc found.0, (omega (arith, found.1.0), walk_step found.0 x e p ∙ found.1.1))
    ]
  ]

  -- The trail is as long as the walk, or it recurs.
  later :
      (n : ℕ) (x : String) (e : Edge F)
      → pred_of pred x ≡ some e
      → Recurs e.src n
      → Recurs x (suc n)
  later n x e p r = record {
    ahead = suc r.ahead;
    around = r.around;
    asset = r.asset;
    some_around = r.some_around;
    in_time = omega (arith, r.in_time);
    arrives = walk_step r.ahead x e p ∙ r.arrives;
    returns = r.returns;
  }

  length-trail : (n : ℕ) (x y : String) → walk_back pred n x ≡ some y → length (trail n x) ≡ suc n
  length-trail zero x y w = ap length (trail_none x)
  length-trail (suc n) x y w = elim (Option-cases (pred_of pred x)) [
    | inl p ↦ ground (arith, w, walk_stuck n x p)
    | inr (e, p) ↦
        ap length (trail_step n x e p)
        ∙ ap suc (length-trail n e.src y (sym (walk_step n x e p) ∙ w))
  ]

  member_apart :
      (x : String) (xs : List String)
      → member x xs ≡ false
      → All (λ y. string_key.same x y ≡ false) xs
  unfolding member
  member_apart x [] h = tt
  member_apart x (y ∷ ys) h = (
    ground (arith, string_key.same_iff x y, string_key.same_iff y x, h),
    member_apart x ys (ground (arith, h)),
  )

  walk_back_cases :
      (n : ℕ) (x y : String) → walk_back pred n x ≡ some y → IsDistinct (trail n x) ⊎ Recurs x n
  unfolding Passes
  walk_back_cases zero x y w = rw (trail_none x) (inl (tt, tt))
  walk_back_cases (suc n) x y w = elim (Option-cases (pred_of pred x)) [
    | inl p ↦ ground (arith, w, walk_stuck n x p)
    | inr (e, p) ↦
        let w' = sym (walk_step n x e p) ∙ w in
        elim (walk_back_cases n e.src y w') [
          | inr r ↦ inr (later n x e p r)
          | inl d ↦ elim (Bool-cases (member x (trail n e.src))) [
            | inr q ↦ rw (trail_step n x e p) (inl (member_apart x (trail n e.src) q, d))
            | inl q ↦
                let found = passed n e.src y x w' q in
                inr (record {
                  ahead = 0;
                  around = suc found.0;
                  asset = x;
                  some_around = omega arith;
                  in_time = omega (arith, found.1.0);
                  arrives = walk_none x;
                  returns = walk_step found.0 x e p ∙ found.1.1;
                })
          ]
        ]
  ]

  trail-known :
      (assets : List String)
      → ((x : String) (e : Edge F) → pred_of pred x ≡ some e → Stands assets e.src)
      → (n : ℕ) (x : String) → Stands assets x
      → All (Stands assets) (trail n x)
  unfolding trail
  trail-known assets known zero x m = (m, tt)
  trail-known assets known (suc n) x m = elim (Option-cases (pred_of pred x)) [
    | inl p ↦ rw (trail, p) (m, tt)
    | inr (e, p) ↦ rw (trail, p) (m, trail-known assets known n e.src (known x e p))
  ]

  -- The walk is on its cycle when it has gone on as far as the trail before it.
  recurs_here :
      (n : ℕ) (x y : String)
      → walk_back pred n x ≡ some y
      → (r : Recurs x n) → walk_back pred r.around y ≡ some y
  recurs_here n x y w r =
      let rest = n - r.ahead in
      let onward =
        sym (walk-add r.ahead rest n x r.asset (omega (arith, r.in_time)) r.arrives) ∙ w in
      let twice =
        walk-add r.around rest (r.around + rest) r.asset r.asset refl r.returns ∙ onward in
      sym (walk-add rest r.around (r.around + rest) r.asset y (omega arith) onward) ∙ twice

  -- As many steps as there are assets end on a cycle that is not longer.
  pub walk_recurs :
      (assets : List String)
      → ((x : String) (e : Edge F) → pred_of pred x ≡ some e → Stands assets e.src)
      → (x y : String) → Stands assets x
      → walk_back pred (length assets) x ≡ some y
      → (d : ℕ) × ((1 ≤ d) × ((d ≤ length assets) × (walk_back pred d y ≡ some y)))
  walk_recurs assets known x y m w = elim (walk_back_cases (length assets) x y w) [
    | inl d ↦ ground (
      arith,
      length-IsDistinct (trail (length assets) x) assets d
          (trail-known assets known (length assets) x m),
      length-trail (length assets) x y w,
    )
    | inr r ↦
        (r.around, (r.some_around, (omega (arith, r.in_time), recurs_here (length assets) x y w r)))
  ]
