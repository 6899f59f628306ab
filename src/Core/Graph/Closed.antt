-- ===== src/Core/Graph/Closed.antt =====
-- What `bellman_ford_negative_cycle` returns.
use crypto_arb_engine.Prelude.{
  ◌≡◌, refl, sym, ◌∙◌, ap, subst, ℕ, zero, suc, ◌+◌, ◌≤◌, true, false, Option, none, some, List, [],
  ◌∷◌, map, String, length, Any, Bool-cases, Option-cases, inl, inr, arith,
}
use crypto_arb_engine.Prelude.Dict.{Dict, string_key, contains}
use crypto_arb_engine.Float.{Float, ◌⊕◌, nought}
use crypto_arb_engine.Core.Graph.Defs.{Edge, Cycle, Graph, nodes, weight, edges_from}
use crypto_arb_engine.Core.Graph.Cycles.{Leads}
use crypto_arb_engine.Core.Graph.Back.{IsBack}
use crypto_arb_engine.Core.Graph.Relax.{
  Outcome, pred_of, walk_back, relax_rounds, collect, cycle_from, start_at,
  bellman_ford_negative_cycle,
}
use crypto_arb_engine.Core.Graph.Shape.{IsGraph}
use crypto_arb_engine.Core.Graph.Ends.{relaxed-IsBack}

module _ {F : Type 0} ⦃f : Float F⦄ (ln : F → F) where
  -- The weights added up from the last edge to the first, as the walk meets them.
  unfoldable pub sum_back : List (Edge F) → F
  sum_back [] = nought
  sum_back (e ∷ es) = sum_back es ⊕ weight ln e

  -- A closed walk of the graph with at most as many edges as the graph has assets.
  pub record IsClosedWalk (g : Graph F) (c : Cycle F) : Type 0 where
    pub start : String
    pub closed : Leads g start c.edges start
    pub visits : c.assets ≡ start ∷ map (λ e. e.dst) c.edges
    pub some_edge : 1 ≤ length c.edges
    pub short : length c.edges ≤ length (nodes g)
    pub weighs : c.total_weight ≡ sum_back c.edges

  -- Where the loop stands: the edges lead from `current` on to `node`.
  record IsOnward (g : Graph F) (node current : String) (edges : List (Edge F))
      (assets : List String) (total : F) : Type 0 where
    leads : Leads g current edges node
    visits : assets ≡ current ∷ map (λ e. e.dst) edges
    weighs : total ≡ sum_back edges

  onward :
      (g : Graph F) (node current : String) (edges : List (Edge F)) (assets : List String)
      (total : F) (e : Edge F)
      → (e.dst ≡ current) × Any (λ y. y ≡ e) (edges_from g e.src)
      → IsOnward g node current edges assets total
      → IsOnward g node e.src (e ∷ edges) (e.src ∷ assets) (total ⊕ weight ln e)
  unfolding sum_back
  onward g node current edges assets total e (dst, m) o = record {
    leads = (m, subst (λ v. Leads g v edges node) (sym dst) o.leads);
    visits =
        ap (λ vs. e.src ∷ vs)
          (o.visits ∙ ap (λ v. v ∷ map (λ (x : Edge F). x.dst) edges) (sym dst));
    weighs = ap (λ t. t ⊕ weight ln e) o.weighs;
  }

  module _ (pred : Dict String (Option (Edge F))) (fuel : ℕ) (node current : String)
      (edges : List (Edge F)) (assets : List String) (total : F) (e : Edge F)
      (q : pred_of pred current ≡ some e) where
    abbrev closed_by : Cycle F
    closed_by = record {
      assets = e.src ∷ assets;
      edges = e ∷ edges;
      total_weight = total ⊕ weight ln e;
    }

    collect_back :
        string_key.same e.src node ≡ true
        → collect ln pred (suc fuel) node current edges assets total ≡ Outcome.cycle closed_by
    unfolding collect
    collect_back k = rw (collect, q, k) refl

    collect_on :
        string_key.same e.src node ≡ false
        → collect ln pred (suc fuel) node current edges assets total
          ≡ collect ln pred fuel node e.src (e ∷ edges) (e.src ∷ assets) (total ⊕ weight ln e)
    unfolding collect
    collect_on k = rw (collect, q, k) refl

  collect_closes :
      (g : Graph F) (pred : Dict String (Option (Edge F))) (fuel : ℕ) (node current : String)
      (edges : List (Edge F)) (assets : List String) (total : F) (c : Cycle F)
      → IsBack g pred
      → IsOnward g node current edges assets total
      → fuel + length edges ≤ length (nodes g)
      → collect ln pred fuel node current edges assets total ≡ Outcome.cycle c
      → IsClosedWalk g c
  unfolding collect
  collect_closes g pred zero node current edges assets total c b o s h = ground arith
  collect_closes g pred (suc fuel) node current edges assets total c b o s h =
      elim (Option-cases (pred_of pred current)) [
        | inl q ↦ ground (arith, h, q)
        | inr (e, q) ↦
            let next = onward g node current edges assets total e (b current e q) o in
            elim (Bool-cases (string_key.same e.src node)) [
              | inl k ↦
                  let back =
                    sym (collect_back pred fuel node current edges assets total e q k) ∙ h in
                  let same : closed_by pred fuel node current edges assets total e q ≡ c =
                    ground (arith, back) in
                  subst (IsClosedWalk g) same (record {
                    start = node;
                    closed =
                        subst (λ v. Leads g v (e ∷ edges) node)
                          ((string_key.same_iff e.src node).0 k) next.leads;
                    visits =
                        next.visits
                        ∙ ap (λ v. v ∷ map (λ (x : Edge F). x.dst) (e ∷ edges))
                            ((string_key.same_iff e.src node).0 k);
                    some_edge = omega arith;
                    short = omega (arith, s);
                    weighs = next.weighs;
                  })
              | inr k ↦
                  collect_closes g pred fuel node e.src (e ∷ edges) (e.src ∷ assets)
                    (total ⊕ weight ln e) c b next (omega (arith, s))
                    (sym (collect_on pred fuel node current edges assets total e q k) ∙ h)
            ]
      ]

  cycle_from_walked :
      (pred : Dict String (Option (Edge F))) (n : ℕ) (x y : String)
      → walk_back pred n x ≡ some y
      → cycle_from ln pred n (some x) ≡ collect ln pred n y y [] (y ∷ []) nought
  unfolding cycle_from
  cycle_from_walked pred n x y q = rw (cycle_from, q) refl

  cycle_from_closes :
      (g : Graph F) (pred : Dict String (Option (Edge F))) (cycle_start : Option String)
      (c : Cycle F)
      → IsBack g pred
      → cycle_from ln pred (length (nodes g)) cycle_start ≡ Outcome.cycle c
      → IsClosedWalk g c
  unfolding cycle_from sum_back
  cycle_from_closes g pred none c b h = ground arith
  cycle_from_closes g pred (some x) c b h =
      elim (Option-cases (walk_back pred (length (nodes g)) x)) [
        | inl q ↦ ground (arith, h, q)
        | inr (y, q) ↦
            collect_closes g pred (length (nodes g)) y y [] (y ∷ []) nought c b
              (record { leads = refl; visits = refl; weighs = refl }) (omega arith)
              (sym (cycle_from_walked pred (length (nodes g)) x y q) ∙ h)
      ]

  -- In a graph whose edges all lead from one of its assets to another, a cycle that is returned is a closed walk along edges of the graph with at least
  -- one edge and at most as many edges as the graph has assets; its assets are those that the walk
  -- visits, and its total is the sum of its edges' weights, added from the last edge to the first.
  pub bellman_ford_closes :
      (g : Graph F) (source : String) (c : Cycle F)
      → IsGraph g
      → bellman_ford_negative_cycle ln g source ≡ Outcome.cycle c
      → IsClosedWalk g c
  unfolding bellman_ford_negative_cycle
  bellman_ford_closes g source c w h = elim (Bool-cases (contains source g)) [
    | inr q ↦ ground (arith, h, q)
    | inl q ↦
        let r = relax_rounds ln g (length (nodes g)) (start_at g source) in
        cycle_from_closes g r.pred r.cycle_start c (relaxed-IsBack ln g source w)
          (ground (arith, h, q))
  ]
