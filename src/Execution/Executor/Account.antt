-- ===== src/Execution/Executor/Account.antt =====
-- Every opportunity that a trading mode handles is accounted for.
use crypto_arb_engine.Prelude.{
  ◌≡◌, ◌≢◌, refl, inl, inr, ℕ, ◌+◌, ◌⊎◌, Option, none, some, [], ◌∷◌, String, Bool-cases,
  if◌then◌else◌, length, length-append, arith,
}
use crypto_arb_engine.Prelude.Dict.{string_key, get, lookup-set}
use crypto_arb_engine.Float.{Float, ◌≤?◌, nought}
use crypto_arb_engine.Core.Types.{Mode, Opportunity}
use crypto_arb_engine.Analytics.Metrics.{Metrics, record_rejection}
use crypto_arb_engine.Risk.Manager.{
  can_trade, size_with_depth_check, reverify_profitability, commit,
}
use crypto_arb_engine.Execution.Executor.Defs.{
  World, Executor, reject, with_size, handle_paper, handle_live, log_paper, log_live,
  finally_release, dispatch, handle, on_manager,
}

-- The three reasons.
abbrev IsReason : String → Type 0
IsReason reason =
    (reason ≡ "risk_limits")
    ⊎ (reason ≡ "below_venue_minimum_or_slippage")
    ⊎ (reason ≡ "edge_gone_before_execution")

module _ {F : Type 0} where
  -- How often an opportunity was turned down, for any of the three reasons.
  abbrev pub turned_down : Option (Metrics F) → ℕ
  turned_down none = 0
  turned_down (some m) =
      get 0 "risk_limits" m.rejections
      + get 0 "below_venue_minimum_or_slippage" m.rejections
      + get 0 "edge_gone_before_execution" m.rejections

  -- The opportunities that ended in the log or among the rejections.
  abbrev pub accounted : Executor F → ℕ
  accounted ex = length ex.trade_log + turned_down ex.metrics

  get-record_rejection :
      (reason r : String) (m : Metrics F)
      → get 0 r (record_rejection reason m).rejections
        ≡ (if string_key.same reason r then get 0 reason m.rejections + 1 else get 0 r m.rejections)
  unfolding record_rejection
  get-record_rejection reason r m =
      ground (arith, lookup-set reason r (get 0 reason m.rejections + 1) m.rejections)

  reject_counts :
      (reason : String) (m : Metrics F)
      → IsReason reason
      → turned_down (some (record_rejection reason m)) ≡ turned_down (some m) + 1
  reject_counts reason m h =
      rw
        (
          get-record_rejection reason "risk_limits" m,
          get-record_rejection reason "below_venue_minimum_or_slippage" m,
          get-record_rejection reason "edge_gone_before_execution" m,
        )
        (elim h [
          | inl e ↦ rw e (omega arith)
          | inr (inl e) ↦ rw e (omega arith)
          | inr (inr e) ↦ rw e (omega arith)
        ])

  reject-accounted :
      (reason : String) (m : Metrics F) (ex : Executor F)
      → IsReason reason
      → ex.metrics ≡ some m
      → accounted (reject reason ex) ≡ accounted ex + 1
  unfolding reject
  reject-accounted reason m ex r h = rw h (omega (arith, reject_counts reason m r))

module _ {F : Type 0} ⦃f : Float F⦄ where
  with_size-accounted :
      (w : World F) (o : Opportunity F) (trade : F → F → Executor F → Executor F) (m : Metrics F)
      (ex : Executor F)
      → ex.metrics ≡ some m
      → ((size pct : F) → accounted (trade size pct ex) ≡ accounted ex + 1)
      → accounted (finally_release o (with_size w o trade ex)) ≡ accounted ex + 1
  unfolding with_size finally_release
  with_size-accounted w o trade m ex h t =
      let size = size_with_depth_check w.venues ex.risk_manager o ex.book_store (f.lit 1 1) in
      let checked = reverify_profitability o ex.book_store size in
      elim (Bool-cases (size ≤? nought)) [
        | inl e ↦ rw e (reject-accounted "below_venue_minimum_or_slippage" m ex (inr (inl refl)) h)
        | inr e ↦ rw e (elim (Bool-cases checked.0) [
          | inl k ↦ rw k (t size checked.1)
          | inr k ↦ rw k (reject-accounted "edge_gone_before_execution" m ex (inr (inr refl)) h)
        ])
      ]

  dispatch-accounted :
      (w : World F) (o : Opportunity F) (mode : Mode) (m : Metrics F) (ex : Executor F)
      → mode ≢ Mode.monitor
      → ex.metrics ≡ some m
      → accounted (dispatch w o mode ex) ≡ accounted ex + 1
  unfolding dispatch handle_paper handle_live log_paper log_live
  dispatch-accounted w o Mode.monitor m ex not h = elim (not refl) [ ]
  dispatch-accounted w o Mode.paper m ex not h =
      with_size-accounted w o (log_paper w o) m (on_manager (commit o) ex) h
        (λ size pct. omega (arith, length-append ex.trade_log (_ ∷ [])))
  dispatch-accounted w o Mode.live m ex not h =
      with_size-accounted w o (log_live w o) m (on_manager (commit o) ex) h
        (λ size pct. omega (arith, length-append ex.trade_log (_ ∷ [])))

  -- With a metrics registry, and in a mode that trades, handling an opportunity raises by one the
  -- sum of the log's length and the rejections for the three reasons of `handle`.
  pub handle-accounted :
      (w : World F) (o : Opportunity F) (m : Metrics F) (ex : Executor F)
      → ex.mode ≢ Mode.monitor
      → ex.metrics ≡ some m
      → accounted (handle w o ex) ≡ accounted ex + 1
  unfolding handle can_trade
  handle-accounted w o m ex not h =
      let checked = on_manager (λ rm. (can_trade w.today (some o) rm).0) ex in
      elim (Bool-cases (can_trade w.today (some o) ex.risk_manager).1) [
        | inl e ↦ rw e (dispatch-accounted w o ex.mode m checked not h)
        | inr e ↦ rw e (reject-accounted "risk_limits" m checked (inl refl) h)
      ]
