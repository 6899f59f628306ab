-- ===== src/Core/Graph/Shape.antt =====
-- The shape of a graph that `add_edge` builds.
use crypto_arb_engine.Prelude.{
  ◌≡◌, refl, sym, ◌∙◌, ap, subst, ℕ, zero, suc, ◌≤◌, ◌⊎◌, ◌||◌, true, Option, some, List, [], ◌∷◌,
  ◌++◌, String, length, All, All-imp, Any, Bool-cases, Option-cases, inl, inr, arith, if◌then◌else◌,
  or_default,
}
use crypto_arb_engine.Prelude.Dict.{
  Dict, string_key, lookup, IsDict, contains, set, set-IsDict, lookup-set, entries_found,
  contains-Any,
}
use crypto_arb_engine.Prelude.Pigeonhole.{Stands}
use crypto_arb_engine.Core.Graph.Defs.{Edge, Graph, nodes, edges_from, add_edge, ensure}
use crypto_arb_engine.Core.Graph.Walk.{walk_stuck}
use crypto_arb_engine.Core.Graph.Back.{IsBack, AreEdges}
use crypto_arb_engine.Core.Graph.Relax.{pred_of, walk_back}

pub nonempty : (xs : List String) (x : String) → Stands xs x → 1 ≤ length xs
nonempty [] x m = elim m [ ]
nonempty (y ∷ ys) x m = omega arith

module _ {F : Type 0} where
  -- Every edge that is listed at an asset leaves it, and leads to an asset of the graph.
  pub record IsGraph (g : Graph F) : Type 0 where
    pub once : IsDict g
    pub leaves : (u : String) (e : Edge F) → Any (λ x. x ≡ e) (edges_from g u) → e.src ≡ u
    pub arrives :
        (u : String) (e : Edge F) → Any (λ x. x ≡ e) (edges_from g u) → contains e.dst g ≡ true

  All-each {κ} :
      {P : Edge F → Type κ} (es : List (Edge F))
      → ((e : Edge F) → Any (λ x. x ≡ e) es → P e)
      → All P es
  All-each [] h = tt
  All-each (e ∷ es) h = (h e (Any.here refl), All-each es (λ d m. h d (Any.there m)))

  listed :
      (g : Graph F) (u : String) (es : List (Edge F)) → lookup u g ≡ some es → edges_from g u ≡ es
  unfolding edges_from
  listed g u es h = ap (or_default []) h

  pub graph-AreEdges : (g : Graph F) → IsGraph g → AreEdges g g
  graph-AreEdges g w =
      All-imp g
        (λ p h.
          let at = listed g p.0 p.1 h in
          All-each p.1 (λ e m.
            let m' = subst (λ es. Any (λ x. x ≡ e) es) (sym at) m in
            let s = w.leaves p.0 e m' in
            (s, subst (λ u. Any (λ x. x ≡ e) (edges_from g u)) (sym s) m')))
        (entries_found g w.once)

  -- An asset with an edge is an asset of the graph.
  pub edge-Stands :
      (g : Graph F) (u : String) (e : Edge F)
      → Any (λ x. x ≡ e) (edges_from g u)
      → Stands (nodes g) u
  unfolding edges_from
  edge-Stands g u e m = elim (Option-cases (lookup u g)) [
    | inl q ↦ elim (subst (λ o. Any (λ x. x ≡ e) (or_default [] o)) q m) [ ]
    | inr (es, q) ↦ contains-Any u g (ground (arith, q))
  ]

  -- Where a walk of at least one step starts, there is an asset of the graph.
  pub start-Stands :
      (g : Graph F) (pred : Dict String (Option (Edge F))) (n : ℕ) (x y : String)
      → IsGraph g
      → IsBack g pred
      → 1 ≤ n
      → walk_back pred n x ≡ some y
      → Stands (nodes g) x
  start-Stands g pred zero x y w b l h = ground (arith, l)
  start-Stands g pred (suc n) x y w b l h = elim (Option-cases (pred_of pred x)) [
    | inl q ↦ ground (arith, h, walk_stuck pred n x q)
    | inr (e, q) ↦
        let (dst, m) = b x e q in
        subst (Stands (nodes g)) dst (contains-Any e.dst g (w.arrives e.src e m))
  ]

  edges_from-set :
      (g : Graph F) (k u : String) (es : List (Edge F))
      → edges_from (set k es g) u ≡ (if string_key.same k u then es else edges_from g u)
  unfolding edges_from
  edges_from-set g k u es = ground (arith, lookup-set k u es g)

  edges_from-ensure : (g : Graph F) (k u : String) → edges_from (ensure k g) u ≡ edges_from g u
  unfolding edges_from
  edges_from-ensure g k u = ground (arith, lookup-set k u [] g, string_key.same_iff k u)

  contains-set :
      (g : Graph F) (k u : String) (es : List (Edge F))
      → contains u (set k es g) ≡ (string_key.same k u || contains u g)
  contains-set g k u es = ground (arith, lookup-set k u es g)

  contains-ensure :
      (g : Graph F) (k u : String) → contains u (ensure k g) ≡ (string_key.same k u || contains u g)
  contains-ensure g k u = ground (arith, lookup-set k u [] g, string_key.same_iff k u)

  Any-snoc :
      (xs : List (Edge F)) (x e : Edge F)
      → Any (λ y. y ≡ e) (xs ++ (x ∷ []))
      → Any (λ y. y ≡ e) xs ⊎ (x ≡ e)
  Any-snoc [] x e (Any.here h) = inr h
  Any-snoc [] x e (Any.there a) = elim a [ ]
  Any-snoc (y ∷ xs) x e (Any.here h) = inl (Any.here h)
  Any-snoc (y ∷ xs) x e (Any.there a) = elim (Any-snoc xs x e a) [
    | inl b ↦ inl (Any.there b)
    | inr h ↦ inr h
  ]

  ensure-IsDict : (g : Graph F) (k : String) → IsDict g → IsDict (ensure k g)
  ensure-IsDict g k h = elim (Bool-cases (contains k g)) [
    | inl q ↦ rw q h
    | inr q ↦ rw q (set-IsDict k [] g h)
  ]

  edges_from-add_edge :
      (g : Graph F) (d : Edge F) (u : String)
      → edges_from (add_edge d g) u
        ≡ (if string_key.same d.src u then edges_from g d.src ++ (d ∷ []) else edges_from g u)
  unfolding add_edge edges_from
  edges_from-add_edge g d u =
      edges_from-ensure (set d.src (edges_from g d.src ++ (d ∷ [])) g) d.dst u
      ∙ edges_from-set g d.src u _

  contains-add_edge :
      (g : Graph F) (d : Edge F) (u : String)
      → contains u (add_edge d g)
        ≡ (string_key.same d.dst u || (string_key.same d.src u || contains u g))
  unfolding add_edge
  contains-add_edge g d u =
      contains-ensure _ d.dst u ∙ ap (λ b. string_key.same d.dst u || b) (contains-set g d.src u _)

  add_edge-edges :
      (g : Graph F) (d e : Edge F) (u : String)
      → Any (λ y. y ≡ e) (edges_from (add_edge d g) u)
      → Any (λ y. y ≡ e) (edges_from g u) ⊎ ((d.src ≡ u) × (d ≡ e))
  add_edge-edges g d e u m =
      let m' = subst (λ es. Any (λ y. y ≡ e) es) (edges_from-add_edge g d u) m in
      elim (Bool-cases (string_key.same d.src u)) [
        | inr q ↦ inl (
            subst
              (λ b. Any (λ y. y ≡ e) (if b then edges_from g d.src ++ (d ∷ []) else edges_from g u))
              q m')
        | inl q ↦
            let s = (string_key.same_iff d.src u).0 q in
            let m'' =
              subst
                (λ b.
                  Any (λ y. y ≡ e) (if b then edges_from g d.src ++ (d ∷ []) else edges_from g u))
                q m' in
            elim (Any-snoc (edges_from g d.src) d e m'') [
              | inl a ↦ inl (subst (λ v. Any (λ y. y ≡ e) (edges_from g v)) s a)
              | inr k ↦ inr (s, k)
            ]
      ]

  -- Adding an edge leaves a graph.
  pub add_edge-IsGraph : (g : Graph F) (d : Edge F) → IsGraph g → IsGraph (add_edge d g)
  unfolding add_edge
  add_edge-IsGraph g d w = record {
    once = ensure-IsDict _ d.dst (set-IsDict d.src _ g w.once);
    leaves = λ u e m. elim (add_edge-edges g d e u m) [
      | inl a ↦ w.leaves u e a
      | inr (s, q) ↦ subst (λ x. x.src ≡ u) q s
    ];
    arrives = λ u e m. elim (add_edge-edges g d e u m) [
      | inl a ↦ ground (arith, contains-add_edge g d e.dst, w.arrives u e a)
      | inr (s, q) ↦ ground (arith, contains-add_edge g d e.dst, string_key.same_iff d.dst e.dst, q)
    ];
  }
