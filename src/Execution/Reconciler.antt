-- ===== src/Execution/Reconciler.antt =====
-- execution/reconciler.py: `Reconciler`. The text of a plan's `reason` is left out.
pub mod Plans
use crypto_arb_engine.Prelude.{
  Bool, true, false, not, List, [], ◌∷◌, ◌++◌, String, map, filter, if◌then◌else◌, ◌||◌,
}
use crypto_arb_engine.Core.Types.{Side, is_buy, Leg, Opportunity}

pub record UnwindPlan (F : Type 0) : Type 0 where
  pub venue_id : String
  pub symbol : String
  pub side : Side
  pub size : F

pub record LegResult (F : Type 0) : Type 0 where
  pub leg : Leg F
  pub success : Bool
  pub error : String

-- `open_incidents`
abbrev pub Incidents : Type 0 → Type 0
Incidents F = List (Opportunity F × List (LegResult F))

abbrev pub is_empty {ℓ} : {A : Type ℓ} → List A → Bool
is_empty [] = true
is_empty (x ∷ xs) = false

module _ {F : Type 0} where
  unfoldable pub unwind : LegResult F → UnwindPlan F
  unwind r = record {
    venue_id = r.leg.venue_id;
    symbol = r.leg.symbol;
    side = if is_buy r.leg.side then Side.sell else Side.buy;
    size = r.leg.size;
  }

  -- `check`: the incidents afterwards, and the proposed plans.
  unfoldable pub check :
      Incidents F → Opportunity F → List (LegResult F) → Incidents F × List (UnwindPlan F)
  unfolding unwind
  check incidents o results =
      let successes = filter (λ r. r.success) results in
      let failures = filter (λ r. not r.success) results in
      if is_empty failures || is_empty successes
      then (incidents, [])
      else (incidents ++ ((o, results) ∷ []), map unwind successes)

  -- `resolve_incident`, where `same` says of an opportunity that it is the resolved object.
  unfoldable pub resolve_incident : (Opportunity F → Bool) → Incidents F → Incidents F
  resolve_incident same = filter (λ i. not (same i.0))

  unfoldable pub has_open_incidents : Incidents F → Bool
  has_open_incidents incidents = not (is_empty incidents)
