-- ===== src/Engine/Screen.antt =====
-- main.py, `run`: what a tick does with the opportunities that its strategies report, before it
-- executes any, and core/control.py: the state that the dashboard sets. The recorder's calls stand in
-- Analytics/Recorder.antt.
pub mod Counts
pub mod Passed
use crypto_arb_engine.Prelude.{
  ℕ, zero, suc, Bool, true, false, not, ◌&&◌, Option, none, some, List, [], ◌∷◌, String,
  if◌then◌else◌,
}
use crypto_arb_engine.Prelude.Dict.{Dict}
use crypto_arb_engine.Float.{Float}
use crypto_arb_engine.Core.Types.{Mode, Opportunity}
use crypto_arb_engine.Config.Venues.{Venues}
use crypto_arb_engine.Analytics.Metrics.{Metrics, record_hit, record_rejection}
use crypto_arb_engine.Engine.Filters.{is_fillable, is_rebalanceable, dedupe_by_route}
use crypto_arb_engine.Execution.Executor.{World}
use crypto_arb_engine.Engine.Tick.{Engine, decide}

pub record ControlState (F : Type 0) : Type 0 where
  pub mode : Mode
  pub running : Bool
  pub emergency_stop : Bool
  pub strategy_enabled : Dict String Bool
  pub started_at : F

module _ {F : Type 0} where
  abbrev pub is_active : ControlState F → Bool
  is_active c = c.running && not c.emergency_stop

module _ {F : Type 0} ⦃f : Float F⦄ where
  -- Why an opportunity is dropped, if it is.
  unfoldable pub screened : Venues F → Opportunity F → Option String
  screened t o =
      if is_fillable t o
      then (if is_rebalanceable t o then none else some "asset_cannot_be_transferred")
      else some "too_thin_to_fill"

  abbrev pub keep : Option String → Opportunity F → List (Opportunity F) → List (Opportunity F)
  keep none o kept = o ∷ kept
  keep (some reason) o kept = kept

  abbrev pub count : Option String → Metrics F → Metrics F
  count none m = m
  count (some reason) m = record_rejection reason m

  unfoldable pub screen :
      Venues F → List (Opportunity F) → Metrics F → List (Opportunity F) × Metrics F
  unfolding screened
  screen t [] m = ([], m)
  screen t (o ∷ os) m =
      let reason = screened t o in
      let (kept, after) = screen t os (count reason m) in (keep reason o kept, after)

  -- `for _ in range(duplicate_count)`
  unfoldable pub count_duplicates : ℕ → Metrics F → Metrics F
  count_duplicates zero m = m
  count_duplicates (suc n) m = count_duplicates n (record_rejection "duplicate_route" m)

  unfoldable pub count_hits : List (Opportunity F) → Metrics F → Metrics F
  count_hits [] m = m
  count_hits (o ∷ os) m = count_hits os (record_hit o.strategy true m)

  -- What is left of the reported opportunities, with all that is counted.
  unfoldable pub survey :
      Venues F → List (Opportunity F) → Metrics F → List (Opportunity F) × Metrics F
  unfolding screen count_duplicates count_hits
  survey t found m =
      let (fillable, screened_metrics) = screen t found m in
      let (kept, duplicates) = dedupe_by_route fillable in
      (kept, count_hits kept (count_duplicates duplicates screened_metrics))

  -- A tick with what the enabled strategies report and the registry that the loop and the executor
  -- share.
  unfoldable pub tick :
      ControlState F
      → (ℕ → World F)
      → Venues F
      → List (Opportunity F)
      → Metrics F
      → Engine F
      → Engine F
  unfolding survey
  tick control worlds t found m e =
      let (kept, after) = survey t found m in
      let started = record e {
        executor = record (e.executor) { mode = control.mode; metrics = some m };
      } in
      let surveyed = record started {
        executor = record (started.executor) { metrics = some after };
      } in
      if is_active control then decide worlds kept surveyed else started
