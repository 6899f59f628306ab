-- ===== src/Core/Graph/Ends.antt =====
-- The loops of `bellman_ford_negative_cycle` end.
use crypto_arb_engine.Prelude.{
  ◌≡◌, ◌≢◌, sym, ◌∙◌, ℕ, zero, suc, ◌≤◌, Option, none, some, List, [], ◌∷◌, String, length,
  Bool-cases, Option-cases, inl, inr, arith,
}
use crypto_arb_engine.Prelude.Dict.{Dict, string_key, contains, contains-Any}
use crypto_arb_engine.Float.{Float, ◌⊕◌, nought}
use crypto_arb_engine.Core.Graph.Defs.{Edge, Graph, nodes, weight}
use crypto_arb_engine.Core.Graph.Walk.{walk_recurs, walk_step, walk_none}
use crypto_arb_engine.Core.Graph.Back.{IsBack, from_keys-IsBack, relax_rounds-IsBack}
use crypto_arb_engine.Core.Graph.Relax.{
  Outcome, pred_of, walk_back, relax_rounds, collect, cycle_from, start_at,
  bellman_ford_negative_cycle,
}
use crypto_arb_engine.Core.Graph.Shape.{
  nonempty, IsGraph, graph-AreEdges, edge-Stands, start-Stands,
}

module _ {F : Type 0} ⦃f : Float F⦄ (ln : F → F) where
  -- The loop ends when the walk is back.
  collect_ends :
      (pred : Dict String (Option (Edge F))) (fuel d : ℕ) (node current : String)
      (edges : List (Edge F)) (assets : List String) (total : F)
      → 1 ≤ d
      → d ≤ fuel
      → walk_back pred d current ≡ some node
      → collect ln pred fuel node current edges assets total ≢ Outcome.unfinished
  unfolding collect
  collect_ends pred zero d node current edges assets total l u h = ground (arith, l, u)
  collect_ends pred (suc fuel) zero node current edges assets total l u h = ground (arith, l)
  collect_ends pred (suc fuel) (suc zero) node current edges assets total l u h =
      elim (Option-cases (pred_of pred current)) [
        | inl q ↦ rw (collect, q) (ground arith)
        | inr (e, q) ↦ elim (Bool-cases (string_key.same e.src node)) [
          | inl k ↦ rw (collect, q, k) (ground arith)
          | inr k ↦ ground (
            arith,
            k,
            h,
            walk_step pred 0 current e q,
            walk_none pred e.src,
            string_key.same_iff e.src node,
          )
        ]
      ]
  collect_ends pred (suc fuel) (suc (suc d)) node current edges assets total l u h =
      elim (Option-cases (pred_of pred current)) [
        | inl q ↦ rw (collect, q) (ground arith)
        | inr (e, q) ↦ elim (Bool-cases (string_key.same e.src node)) [
          | inl k ↦ rw (collect, q, k) (ground arith)
          | inr k ↦
              rw (collect, q, k)
                (collect_ends pred fuel (suc d) node e.src (e ∷ edges) (e.src ∷ assets)
                  (total ⊕ weight ln e) (omega arith) (omega (arith, u))
                  (sym (walk_step pred (suc d) current e q) ∙ h))
        ]
      ]

  pub relaxed-IsBack :
      (g : Graph F) (source : String)
      → IsGraph g
      → IsBack g (relax_rounds ln g (length (nodes g)) (start_at g source)).pred
  relaxed-IsBack g source w =
      relax_rounds-IsBack ln g (length (nodes g)) (start_at g source) (graph-AreEdges g w)
        (from_keys-IsBack g (nodes g))

  cycle_from_ends :
      (g : Graph F) (pred : Dict String (Option (Edge F))) (cycle_start : Option String)
      → IsGraph g
      → IsBack g pred
      → 1 ≤ length (nodes g)
      → cycle_from ln pred (length (nodes g)) cycle_start ≢ Outcome.unfinished
  unfolding cycle_from
  cycle_from_ends g pred none w b l = ground arith
  cycle_from_ends g pred (some x) w b l =
      elim (Option-cases (walk_back pred (length (nodes g)) x)) [
        | inl q ↦ rw (cycle_from, q) (ground arith)
        | inr (y, q) ↦
            let m = start-Stands g pred (length (nodes g)) x y w b l q in
            let (d, (some_around, (short, back))) =
              walk_recurs pred (nodes g) (λ z e p. edge-Stands g e.src e (b z e p).1) x y m q in
            rw (cycle_from, q)
              (collect_ends pred (length (nodes g)) d y y [] (y ∷ []) nought some_around short back)
      ]

  -- In a graph whose edges all lead from one of its assets to another, the loop that reads the cycle
  -- off the predecessors ends after at most as many turns as the graph has assets, whatever the rates
  -- and the fees.
  pub bellman_ford_ends :
      (g : Graph F) (source : String)
      → IsGraph g
      → bellman_ford_negative_cycle ln g source ≢ Outcome.unfinished
  unfolding bellman_ford_negative_cycle
  bellman_ford_ends g source w = elim (Bool-cases (contains source g)) [
    | inr q ↦ rw q (ground arith)
    | inl q ↦ rw q (
        cycle_from_ends g _ _ w (relaxed-IsBack g source w)
          (nonempty (nodes g) source (contains-Any source g q)))
  ]
