-- ===== src/Analytics/Metrics.antt =====
-- analytics/metrics.py: hit rates, rejections and PnL attribution, and the latency window.
use crypto_arb_engine.Prelude.{
  ℕ, ◌+◌, ◌≤◌, Bool, List, [], ◌∷◌, ◌++◌, String, length, if◌then◌else◌, ◌==◌, ltb, arith,
  length-append,
}
use crypto_arb_engine.Prelude.Dict.{Dict, string_key, get, set}
use crypto_arb_engine.Float.{Float, ◌⊕◌, ◌⊘◌, nought}

pub record Metrics (F : Type 0) : Type 0 where
  pub latency : Dict String (List ℕ)
  pub hits : Dict String ℕ
  pub misses : Dict String ℕ
  pub pnl_by_strategy : Dict String F
  pub rejections : Dict String ℕ

abbrev pub bump : String → Dict String ℕ → Dict String ℕ
bump k d = set k (get 0 k d + 1) d

-- `deque(maxlen=...)`: the newest samples stay.
unfoldable pub append_bounded : ℕ → List ℕ → ℕ → List ℕ
append_bounded limit [] x = if limit == 0 then [] else x ∷ []
append_bounded limit (y ∷ ys) x =
    if ltb (length (y ∷ ys)) limit then (y ∷ ys) ++ (x ∷ []) else ys ++ (x ∷ [])

abbrev pub histogram_maxlen : ℕ
histogram_maxlen = 20_000

module _ {F : Type 0} where
  -- `record_latency`, without the warning that it may log.
  unfoldable pub record_latency : String → ℕ → Metrics F → Metrics F
  unfolding append_bounded
  record_latency stage latency_ns m = record m {
    latency =
        set stage (append_bounded histogram_maxlen (get [] stage m.latency) latency_ns) m.latency;
  }

  unfoldable pub record_hit : String → Bool → Metrics F → Metrics F
  record_hit strategy hit m =
      if hit
      then record m { hits = bump strategy m.hits }
      else record m { misses = bump strategy m.misses }

  unfoldable pub record_rejection : String → Metrics F → Metrics F
  record_rejection reason m = record m { rejections = bump reason m.rejections }

  module _ ⦃f : Float F⦄ where
    unfoldable pub hit_rate : String → Metrics F → F
    hit_rate strategy m =
        let hits = get 0 strategy m.hits in
        let total = hits + get 0 strategy m.misses in
        if total == 0 then nought else f.lit hits 0 ⊘ f.lit total 0

    unfoldable pub record_pnl : String → F → Metrics F → Metrics F
    record_pnl strategy pnl_usd m = record m {
      pnl_by_strategy =
          set strategy (get nought strategy m.pnl_by_strategy ⊕ pnl_usd) m.pnl_by_strategy;
    }

-- The window of samples never outgrows its limit.
pub length-append_bounded-le :
    (limit : ℕ) (xs : List ℕ) (x : ℕ)
    → length xs ≤ limit
    → length (append_bounded limit xs x) ≤ limit
unfolding append_bounded
length-append_bounded-le limit [] x h = ground arith
length-append_bounded-le limit (y ∷ ys) x h =
    ground (arith, length-append (y ∷ ys) (x ∷ []), length-append ys (x ∷ []))
