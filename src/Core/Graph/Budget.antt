-- ===== src/Core/Graph/Budget.antt =====
-- The cap on the work of a search.
use crypto_arb_engine.Prelude.{ℕ, ◌≤◌, length}
use crypto_arb_engine.Float.{Float}
use crypto_arb_engine.Core.Graph.Defs.{Graph, Search}

module _ {F : Type 0} ⦃f : Float F⦄ (ln : F → F) (limit : ℕ) where
  abbrev Within : Search F → Type 0
  Within s = (length s.results ≤ s.expansions) × (s.expansions ≤ limit)
