-- ===== src/Core/Graph/Defs.antt =====
-- The graph and the bounded search. `math.log` and `math.exp` are parameters.
use crypto_arb_engine.Prelude.{
  ℕ, zero, suc, ◌+◌, Bool, true, false, Option, none, some, List, [], ◌∷◌, ◌++◌, map, String,
  if◌then◌else◌, leb, length, ◌&&◌, ◌||◌,
}
use crypto_arb_engine.Prelude.Dict.{Dict, string_key, get, set, contains}
use crypto_arb_engine.Prelude.Sort.{sort}
use crypto_arb_engine.Float.{Float, ◌⊕◌, ◌⊖◌, ◌⊗◌, ◌<?◌, ◌≤?◌, nought, hundred}
use crypto_arb_engine.Core.Types.{Side}

pub record Edge (F : Type 0) : Type 0 where
  pub src : String
  pub dst : String
  pub rate : F
  pub fee : F
  pub venue_id : String
  pub symbol : String
  pub side : Side

pub record Cycle (F : Type 0) : Type 0 where
  pub assets : List String
  pub edges : List (Edge F)
  pub total_weight : F

-- `_adjacency`
abbrev pub Graph : Type 0 → Type 0
Graph F = Dict String (List (Edge F))

-- What a search changes: `expansions`, `truncated` and `results`.
pub record Search (F : Type 0) : Type 0 where
  pub expansions : ℕ
  pub truncated : Bool
  pub results : List (Cycle F)

-- `x in visited`
unfoldable pub member : String → List String → Bool
member x [] = false
member x (y ∷ ys) = string_key.same y x || member x ys

-- `setdefault(k, [])`
abbrev pub ensure {ℓ} : {V : Type ℓ} → String → Dict String (List V) → Dict String (List V)
ensure k d = if contains k d then d else set k [] d

-- `max_expansions is not None and expansions >= max_expansions`
unfoldable pub capped : Option ℕ → ℕ → Bool
capped none n = false
capped (some limit) n = leb limit n

module _ {F : Type 0} where
  unfoldable pub add_edge : Edge F → Graph F → Graph F
  add_edge e g = ensure e.dst (set e.src (get [] e.src g ++ (e ∷ [])) g)

  unfoldable pub edges_from : Graph F → String → List (Edge F)
  edges_from g asset = get [] asset g

  abbrev pub nodes : Graph F → List String
  nodes g = map (λ p. p.0) g

  -- The loop over the edges of one asset, which returns early where a turn says so.
  unfoldable pub loop : (Edge F → Search F → Search F × Bool) → List (Edge F) → Search F → Search F
  loop turn [] s = s
  loop turn (e ∷ es) s =
      let (s', returns) = turn e s in let rest = loop turn es s' in if returns then s' else rest

module _ {F : Type 0} ⦃f : Float F⦄ (ln : F → F) where
  unfoldable pub weight : Edge F → F
  weight e =
      let effective_rate = e.rate ⊗ (f.lit 1 0 ⊖ e.fee) in
      if effective_rate ≤? nought then f.inf else f.neg (ln effective_rate)

  -- `Cycle.profit_pct`
  abbrev pub profit_pct : (F → F) → Cycle F → F
  profit_pct exp c = (exp (f.neg c.total_weight) ⊖ f.lit 1 0) ⊗ hundred

  -- A cycle that is closed by the edge `e`, if it gains.
  abbrev pub close : String → List String → List (Edge F) → F → Edge F → Search F → Search F
  close start assets edges total e s =
      let new_weight = total ⊕ weight e in
      if new_weight <? nought
      then record s {
        results =
            s.results
            ++ (record {
              assets = assets ++ (start ∷ []);
              edges = edges ++ (e ∷ []);
              total_weight = new_weight;
            }
                ∷ []);
      }
      else s

  -- One turn of the loop over the edges, and whether `dfs` returns after it. `descend` is the recursive
  -- call. The set `visited` always holds just the assets of the path.
  unfoldable pub step :
      (Edge F → Search F → Search F)
      → Option ℕ
      → String
      → List String
      → List (Edge F)
      → F
      → Edge F
      → Search F
      → Search F × Bool
  unfolding weight member capped
  step descend max_expansions start assets edges total e s =
      let counted = record s { expansions = s.expansions + 1 } in
      let deeper = descend e counted in
      if capped max_expansions s.expansions
      then (record s { truncated = true }, true)
      else (if string_key.same e.dst start && leb 2 (length edges)
          then (close start assets edges total e counted, false)
          else (if member e.dst assets then (counted, false) else (deeper, deeper.truncated)))

  -- `dfs`, where `left` hops may still be made: `max_length - len(path_edges)`.
  unfoldable pub dfs :
      Graph F
      → Option ℕ
      → String
      → (left : ℕ) → List String
      → List (Edge F)
      → String
      → F
      → Search F
      → Search F
  unfolding step loop
  dfs g max_expansions start zero assets edges current total s = s
  dfs g max_expansions start (suc left) assets edges current total s =
      loop
        (step
          (λ e.
            dfs g max_expansions start left (assets ++ (e.dst ∷ [])) (edges ++ (e ∷ [])) e.dst
              (total ⊕ weight e))
          max_expansions start assets edges total)
        (edges_from g current) s

  -- The state when the outermost `dfs` has returned.
  unfoldable pub search : Graph F → String → ℕ → Option ℕ → Search F
  unfolding dfs
  search g start max_length max_expansions =
      dfs g max_expansions start max_length (start ∷ []) [] start nought
        (record { expansions = 0; truncated = false; results = [] })

  abbrev pub by_weight : Cycle F → Cycle F → Bool
  by_weight a b = a.total_weight <? b.total_weight

  unfoldable pub find_cycles : Graph F → String → ℕ → Option ℕ → List (Cycle F)
  unfolding search
  find_cycles g start_asset max_length max_expansions =
      if contains start_asset g
      then sort by_weight (search g start_asset max_length max_expansions).results
      else []
