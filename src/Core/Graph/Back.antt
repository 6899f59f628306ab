-- ===== src/Core/Graph/Back.antt =====
-- The predecessors that the relaxation of `bellman_ford_negative_cycle` leaves.
use crypto_arb_engine.Prelude.{
  ◌≡◌, sym, ◌∙◌, ap, subst, ℕ, zero, suc, Bool, true, false, Option, none, some, List, [], ◌∷◌,
  String, All, Any, Bool-cases, inl, inr, arith, if◌then◌else◌, or_default, ◌==◌,
}
use crypto_arb_engine.Prelude.Dict.{
  Dict, string_key, lookup, IsDict, set, contains, lookup-set, lookup-cons_ne,
}
use crypto_arb_engine.Float.{Float, ◌⊕◌, ◌⊖◌, ◌<?◌, ◌==?◌}
use crypto_arb_engine.Core.Graph.Defs.{Edge, Graph, weight, edges_from}
use crypto_arb_engine.Core.Graph.Relax.{
  Relaxed, from_keys, pred_of, relax_edge, relax_edges, relax_node, relax_nodes, relax_rounds,
  dist_of,
}

module _ {F : Type 0} where
  -- Every edge that is listed at an asset leaves it, and leads to an asset of the graph.
  pub record IsGraph (g : Graph F) : Type 0 where
    pub once : IsDict g
    pub leaves : (u : String) (e : Edge F) → Any (λ x. x ≡ e) (edges_from g u) → e.src ≡ u
    pub arrives :
        (u : String) (e : Edge F) → Any (λ x. x ≡ e) (edges_from g u) → contains e.dst g ≡ true

  -- The predecessor of an asset is an edge of the graph that leads there.
  abbrev pub IsBack : Graph F → Dict String (Option (Edge F)) → Type 0
  IsBack g pred =
      (x : String) (e : Edge F)
      → pred_of pred x ≡ some e
      → (e.dst ≡ x) × Any (λ y. y ≡ e) (edges_from g e.src)

  pub from_keys-IsBack : (g : Graph F) (ks : List String) → IsBack g (from_keys ks none)
  unfolding from_keys pred_of lookup
  from_keys-IsBack g [] x e h = ground (arith, h)
  from_keys-IsBack g (k ∷ ks) x e h = elim (Bool-cases (string_key.same k x)) [
    | inl q ↦ ground (arith, h, q)
    | inr q ↦
        from_keys-IsBack g ks x e (sym (ap (or_default none) (lookup-cons_ne k x none _ q)) ∙ h)
  ]

  pred_of-set :
      (pred : Dict String (Option (Edge F))) (k x : String) (v : Option (Edge F))
      → pred_of (set k v pred) x ≡ (if string_key.same k x then v else pred_of pred x)
  unfolding pred_of
  pred_of-set pred k x v = ground (arith, lookup-set k x v pred)

  set-IsBack :
      (g : Graph F) (pred : Dict String (Option (Edge F))) (d : Edge F)
      → Any (λ y. y ≡ d) (edges_from g d.src)
      → IsBack g pred
      → IsBack g (set d.dst (some d) pred)
  set-IsBack g pred d m b x e h = elim (Bool-cases (string_key.same d.dst x)) [
    | inl q ↦
        let same : d ≡ e = ground (arith, pred_of-set pred d.dst x (some d), h, q) in
        subst (λ c. (c.dst ≡ x) × Any (λ y. y ≡ c) (edges_from g c.src)) same
          ((string_key.same_iff d.dst x).0 q, m)
    | inr q ↦ b x e (ground (arith, pred_of-set pred d.dst x (some d), h, q))
  ]

  -- The edges of the part `h` of the graph `g`.
  abbrev pub AreEdges : Graph F → Graph F → Type 0
  AreEdges g h = All (λ n. All (λ e. (e.src ≡ n.0) × Any (λ y. y ≡ e) (edges_from g e.src)) n.1) h

  module _ ⦃f : Float F⦄ (ln : F → F) where
    relax_edge-IsBack :
        (g : Graph F) (last : Bool) (e : Edge F) (r : Relaxed F)
        → Any (λ y. y ≡ e) (edges_from g e.src)
        → IsBack g r.pred
        → IsBack g (relax_edge ln last e.src e r).pred
    unfolding relax_edge
    relax_edge-IsBack g last e r m b =
        elim (Bool-cases
          (dist_of r.dist e.src ⊕ weight ln e <? (dist_of r.dist e.dst ⊖ f.lit 1 12))) [
            | inl q ↦ rw q (set-IsBack g r.pred e m b)
            | inr q ↦ rw q b
          ]

    relax_edges-IsBack :
        (g : Graph F) (last : Bool) (u : String) (es : List (Edge F)) (r : Relaxed F)
        → All (λ e. (e.src ≡ u) × Any (λ y. y ≡ e) (edges_from g e.src)) es
        → IsBack g r.pred
        → IsBack g (relax_edges ln last u es r).pred
    unfolding relax_edges
    relax_edges-IsBack g last u [] r m b = b
    relax_edges-IsBack g last u (e ∷ es) r ((s, m), ms) b =
        relax_edges-IsBack g last u es (relax_edge ln last u e r) ms (
          subst (λ v. IsBack g (relax_edge ln last v e r).pred) s
            (relax_edge-IsBack g last e r m b))

    relax_node-IsBack :
        (g : Graph F) (last : Bool) (u : String) (es : List (Edge F)) (r : Relaxed F)
        → All (λ e. (e.src ≡ u) × Any (λ y. y ≡ e) (edges_from g e.src)) es
        → IsBack g r.pred
        → IsBack g (relax_node ln last u es r).pred
    unfolding relax_node
    relax_node-IsBack g last u es r a b = elim (Bool-cases (dist_of r.dist u ==? f.inf)) [
      | inl q ↦ rw q b
      | inr q ↦ rw q (relax_edges-IsBack g last u es r a b)
    ]

    relax_nodes-IsBack :
        (g h : Graph F) (last : Bool) (r : Relaxed F)
        → AreEdges g h
        → IsBack g r.pred
        → IsBack g (relax_nodes ln last h r).pred
    unfolding relax_nodes
    relax_nodes-IsBack g [] last r a b = b
    relax_nodes-IsBack g ((u, es) ∷ h) last r (a, as') b =
        relax_nodes-IsBack g h last (relax_node ln last u es r) as'
          (relax_node-IsBack g last u es r a b)

    pub relax_rounds-IsBack :
        (g : Graph F) (left : ℕ) (r : Relaxed F)
        → AreEdges g g
        → IsBack g r.pred
        → IsBack g (relax_rounds ln g left r).pred
    unfolding relax_rounds
    relax_rounds-IsBack g zero r a b = b
    relax_rounds-IsBack g (suc left) r a b =
        let r' = relax_nodes ln (left == 0) g (record r { updated = false }) in
        let b' = relax_nodes-IsBack g g (left == 0) (record r { updated = false }) a b in
        elim (Bool-cases r'.updated) [
          | inl q ↦ rw q (relax_rounds-IsBack g left r' a b')
          | inr q ↦ rw q b'
        ]
