-- ===== src/Core/Graph/Relax.antt =====
-- core/graph.py: `CurrencyGraph.bellman_ford_negative_cycle`. Every asset of an edge is a node, so that
-- the reads of `dist` and `pred` find a key.
use crypto_arb_engine.Prelude.{
  ℕ, zero, suc, Bool, true, false, Option, none, some, List, [], ◌∷◌, map, String, if◌then◌else◌,
  ◌==◌, length,
}
use crypto_arb_engine.Prelude.Dict.{Dict, string_key, get, set, contains}
use crypto_arb_engine.Float.{Float, ◌⊕◌, ◌⊖◌, ◌<?◌, ◌==?◌, nought}
use crypto_arb_engine.Core.Graph.Defs.{Edge, Cycle, Graph, nodes, weight}

-- The local variables of the relaxation.
pub record Relaxed (F : Type 0) : Type 0 where
  pub dist : Dict String F
  pub pred : Dict String (Option (Edge F))
  pub updated : Bool
  pub cycle_start : Option String

-- What the method returns: no cycle, or one. `unfinished` says that the `while True` loop would go on
-- after as many turns as the graph has nodes.
pub data Outcome (F : Type 0) : Type 0 where
  unfinished : Outcome F
  no_cycle : Outcome F
  cycle : Cycle F → Outcome F

-- `dict.fromkeys(keys, value)`, of keys that are all different
unfoldable pub from_keys {ℓ} : {V : Type ℓ} → List String → V → Dict String V
from_keys ks v = map (λ k. (k, v)) ks

unfoldable pub pred_of : {F : Type 0} → Dict String (Option (Edge F)) → String → Option (Edge F)
pred_of pred node = get none node pred

-- The walk over the predecessors, `n` steps back; `none` where an asset has none.
unfoldable pub walk_back : {F : Type 0} → Dict String (Option (Edge F)) → ℕ → String → Option String
walk_back pred zero node = some node
walk_back pred (suc n) node = elim (pred_of pred node) [
  | none ↦ none
  | some e ↦ walk_back pred n e.src
]

module _ {F : Type 0} ⦃f : Float F⦄ where
  abbrev pub dist_of : Dict String F → String → F
  dist_of dist node = get f.inf node dist

  abbrev pub start_at : Graph F → String → Relaxed F
  start_at g source = record {
    dist = set source nought (from_keys (nodes g) f.inf);
    pred = from_keys (nodes g) none;
    updated = false;
    cycle_start = none;
  }

module _ {F : Type 0} ⦃f : Float F⦄ (ln : F → F) where
  -- One edge in one round; `last` says that the round is the last.
  unfoldable pub relax_edge : Bool → String → Edge F → Relaxed F → Relaxed F
  unfolding weight
  relax_edge last src e r =
      let candidate = dist_of r.dist src ⊕ weight ln e in
      if candidate <? (dist_of r.dist e.dst ⊖ f.lit 1 12)
      then record {
        dist = set e.dst candidate r.dist;
        pred = set e.dst (some e) r.pred;
        updated = true;
        cycle_start = if last then some e.dst else r.cycle_start;
      }
      else r

  unfoldable pub relax_edges : Bool → String → List (Edge F) → Relaxed F → Relaxed F
  unfolding relax_edge
  relax_edges last src [] r = r
  relax_edges last src (e ∷ es) r = relax_edges last src es (relax_edge last src e r)

  unfoldable pub relax_node : Bool → String → List (Edge F) → Relaxed F → Relaxed F
  unfolding relax_edges
  relax_node last src edges r =
      if dist_of r.dist src ==? f.inf then r else relax_edges last src edges r

  unfoldable pub relax_nodes : Bool → Graph F → Relaxed F → Relaxed F
  unfolding relax_node
  relax_nodes last [] r = r
  relax_nodes last ((src, edges) ∷ g) r = relax_nodes last g (relax_node last src edges r)

  -- The rounds, of which `left` are left.
  unfoldable pub relax_rounds : Graph F → (left : ℕ) → Relaxed F → Relaxed F
  unfolding relax_nodes
  relax_rounds g zero r = r
  relax_rounds g (suc left) r =
      let r' = relax_nodes (left == 0) g (record r { updated = false }) in
      let rest = relax_rounds g left r' in if r'.updated then rest else r'

  -- The `while True` loop from `current` back to `node`, for at most `fuel` turns. The lists are kept in
  -- the order that they have when the code has reversed them.
  unfoldable pub collect :
      Dict String (Option (Edge F))
      → (fuel : ℕ) → (node current : String) → List (Edge F)
      → List String
      → F
      → Outcome F
  unfolding weight
  collect pred zero node current edges assets total = Outcome.unfinished
  collect pred (suc fuel) node current edges assets total = elim (pred_of pred current) [
    | none ↦ Outcome.no_cycle
    | some e ↦
        let rest =
          collect pred fuel node e.src (e ∷ edges) (e.src ∷ assets) (total ⊕ weight ln e) in
        if string_key.same e.src node
        then Outcome.cycle (record {
          assets = e.src ∷ assets;
          edges = e ∷ edges;
          total_weight = total ⊕ weight ln e;
        })
        else rest
  ]

  -- What follows the relaxation.
  unfoldable pub cycle_from : Dict String (Option (Edge F)) → ℕ → Option String → Outcome F
  unfolding walk_back collect
  cycle_from pred n none = Outcome.no_cycle
  cycle_from pred n (some cycle_start) = elim (walk_back pred n cycle_start) [
    | none ↦ Outcome.no_cycle
    | some node ↦ collect pred n node node [] (node ∷ []) nought
  ]

  unfoldable pub bellman_ford_negative_cycle : Graph F → String → Outcome F
  unfolding relax_rounds cycle_from from_keys
  bellman_ford_negative_cycle g source =
      let r = relax_rounds g (length (nodes g)) (start_at g source) in
      if contains source g
      then cycle_from r.pred (length (nodes g)) r.cycle_start
      else Outcome.no_cycle
