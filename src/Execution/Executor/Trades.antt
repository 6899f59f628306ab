-- ===== src/Execution/Executor/Trades.antt =====
-- Which opportunities `Executor.handle` trades, and how it accounts for the others.
use crypto_arb_engine.Prelude.{
  ◌≡◌, ◌≢◌, refl, sym, ◌∙◌, ap, inl, inr, ◌⊎◌, Bool, not, ◌&&◌, Option, none, some, List, [], ◌∷◌,
  ◌++◌, Bool-cases, if◌then◌else◌, all,
}
use crypto_arb_engine.Prelude.Dict.{string_key}
use crypto_arb_engine.Float.{Float, ◌⊗◌, ◌⊘◌, ◌≤?◌, nought, hundred}
use crypto_arb_engine.Core.Types.{Mode, Leg, Opportunity}
use crypto_arb_engine.Risk.Manager.{
  can_trade, roll_day_if_needed, commit, size_with_depth_check, reverify_profitability,
}
use crypto_arb_engine.Risk.Manager.Gate.{IsRunning, HasRoom, can_trade_iff}
use crypto_arb_engine.Risk.Manager.Recheck.{Rechecked, reverify_profitability_sound}
use crypto_arb_engine.Execution.Executor.Defs.{
  World, Executor, TradeLogEntry, reject, with_size, handle_paper, handle_live, log_paper, log_live,
  finally_release, dispatch, handle, on_manager, paper_entry, live_entry, estimate_pnl_usd, fire,
  execute_leg, leg_result,
}

module _ {F : Type 0} ⦃f : Float F⦄ where
  -- The venue answers the order for this leg, of so many dollars at its quoted price, by placing it.
  abbrev is_placed : World F → F → Leg F → Bool
  is_placed w size_usd leg = (leg_result leg (execute_leg w size_usd leg)).success

  -- The profit of a trade of that size: on paper what the check expects, live the same if every leg is
  -- placed for that size, else none.
  abbrev pub booked : World F → Mode → F → F → List (Leg F) → Option F
  booked w Mode.monitor size_usd pct legs = none
  booked w Mode.paper size_usd pct legs = some (size_usd ⊗ (pct ⊘ hundred))
  booked w Mode.live size_usd pct legs =
      if all (is_placed w size_usd) legs then some (size_usd ⊗ (pct ⊘ hundred)) else none

  all-fire :
      (w : World F) (size_usd : F) (legs : List (Leg F))
      → all (λ r. r.success) (fire w size_usd legs) ≡ all (is_placed w size_usd) legs
  unfolding fire
  all-fire w size_usd [] = refl
  all-fire w size_usd (leg ∷ legs) =
      ap (λ b. is_placed w size_usd leg && b) (all-fire w size_usd legs)

  live_profit :
      (w : World F) (o : Opportunity F) (size_usd pct : F)
      → let all_ok = all (λ r. r.success) (fire w size_usd o.legs) in
        (live_entry o (if all_ok then estimate_pnl_usd size_usd pct else nought) all_ok).pnl_usd
        ≡ booked w Mode.live size_usd pct o.legs
  unfolding estimate_pnl_usd
  live_profit w o size_usd pct =
      rw (all-fire w size_usd o.legs) (elim (Bool-cases (all (is_placed w size_usd) o.legs)) [
        | inl e ↦ rw e refl
        | inr e ↦ rw e refl
      ])

  -- What stands behind an entry that `handle` logs.
  pub record Traded (w : World F) (o : Opportunity F) (ex after : Executor F) : Type 0 where
    pub not_monitor : ex.mode ≢ Mode.monitor
    pub running : IsRunning (roll_day_if_needed w.today ex.risk_manager)
    pub room : HasRoom (roll_day_if_needed w.today ex.risk_manager) o
    pub size_usd : F
    pub net_profit_pct : F
    pub rechecked : Rechecked ex.book_store size_usd net_profit_pct o.legs
    pub sized :
        size_usd
        ≡ size_with_depth_check w.venues
            (commit o (roll_day_if_needed w.today ex.risk_manager))
            o
            ex.book_store
            (f.lit 1 1)
    pub entry : TradeLogEntry F
    pub of_opportunity : entry.opportunity ≡ o
    pub in_mode : entry.mode ≡ ex.mode
    pub profit : entry.pnl_usd ≡ booked w ex.mode size_usd net_profit_pct o.legs
    pub logged : after.trade_log ≡ ex.trade_log ++ (entry ∷ [])

  -- A trade that goes ahead does so with a size and a profit that passed the check just before it.
  record Checked (w : World F) (o : Opportunity F) (trade : F → F → Executor F → Executor F)
      (ex after : Executor F) : Type 0 where
    size_usd : F
    net_profit_pct : F
    rechecked : Rechecked ex.book_store size_usd net_profit_pct o.legs
    sized : size_usd ≡ size_with_depth_check w.venues ex.risk_manager o ex.book_store (f.lit 1 1)
    log : after.trade_log ≡ (trade size_usd net_profit_pct ex).trade_log

  with_size-Checked :
      (w : World F) (o : Opportunity F) (trade : F → F → Executor F → Executor F) (ex : Executor F)
      → let after = finally_release o (with_size w o trade ex) in
        (after.trade_log ≡ ex.trade_log) ⊎ Checked w o trade ex after
  unfolding with_size finally_release reject
  with_size-Checked w o trade ex =
      let size = size_with_depth_check w.venues ex.risk_manager o ex.book_store (f.lit 1 1) in
      let checked = reverify_profitability o ex.book_store size in
      elim (Bool-cases (size ≤? nought)) [
        | inl e ↦ rw e (inl refl)
        | inr e ↦ rw e (elim (Bool-cases (checked.0)) [
          | inl k ↦ rw k (
              inr (record {
                size_usd = size;
                net_profit_pct = checked.1;
                rechecked =
                    reverify_profitability_sound o ex.book_store size checked.1
                      (ap (λ (b : Bool). (b, checked.1)) k);
                sized = refl;
                log = refl;
              }))
          | inr k ↦ rw k (inl refl)
        ])
      ]

  Checked-Traded :
      (w : World F) (o : Opportunity F) (ex held after : Executor F) (mode : Mode)
      (trade : F → F → Executor F → Executor F) (entry : F → F → TradeLogEntry F)
      → ex.mode ≡ mode
      → mode ≢ Mode.monitor
      → IsRunning (roll_day_if_needed w.today ex.risk_manager)
      → HasRoom (roll_day_if_needed w.today ex.risk_manager) o
      → held.risk_manager ≡ commit o (roll_day_if_needed w.today ex.risk_manager)
      → held.book_store ≡ ex.book_store
      → held.trade_log ≡ ex.trade_log
      → ((size pct : F)
          → ((trade size pct held).trade_log ≡ held.trade_log ++ (entry size pct ∷ []))
            × ((entry size pct).opportunity ≡ o)
            × ((entry size pct).mode ≡ mode)
            × ((entry size pct).pnl_usd ≡ booked w mode size pct o.legs))
      → (after.trade_log ≡ held.trade_log) ⊎ Checked w o trade held after
      → (after.trade_log ≡ ex.trade_log) ⊎ Traded w o ex after
  Checked-Traded w o ex held after mode trade entry m not running room r b l t (inl e) = inl (e ∙ l)
  Checked-Traded w o ex held after mode trade entry m not running room r b l t (inr s) =
      let facts = t s.size_usd s.net_profit_pct in
      inr (record {
        not_monitor = rw m not;
        running = running;
        room = room;
        size_usd = s.size_usd;
        net_profit_pct = s.net_profit_pct;
        rechecked = rw b at s.rechecked;
        sized = rw (r, b) at s.sized;
        entry = entry s.size_usd s.net_profit_pct;
        of_opportunity = facts.1;
        in_mode = facts.2 ∙ sym m;
        profit = rw m facts.3;
        logged = s.log ∙ facts.0 ∙ ap (λ log. log ++ (entry s.size_usd s.net_profit_pct ∷ [])) l;
      })

  dispatch-Traded :
      (w : World F) (o : Opportunity F) (ex : Executor F) (mode : Mode)
      → ex.mode ≡ mode
      → IsRunning (roll_day_if_needed w.today ex.risk_manager)
      → HasRoom (roll_day_if_needed w.today ex.risk_manager) o
      → let after = dispatch w o mode (on_manager (roll_day_if_needed w.today) ex) in
        (after.trade_log ≡ ex.trade_log) ⊎ Traded w o ex after
  unfolding dispatch handle_paper handle_live log_paper log_live estimate_pnl_usd
  dispatch-Traded w o ex Mode.monitor m running room = inl refl
  dispatch-Traded w o ex Mode.paper m running room =
      let held = on_manager (commit o) (on_manager (roll_day_if_needed w.today) ex) in
      Checked-Traded w o ex held _ Mode.paper (log_paper w o)
        (λ size pct. paper_entry o (estimate_pnl_usd size pct)) m (λ e. cc) running room refl refl
        refl (λ size pct. (refl, refl, refl, refl)) (with_size-Checked w o (log_paper w o) held)
  dispatch-Traded w o ex Mode.live m running room =
      let held = on_manager (commit o) (on_manager (roll_day_if_needed w.today) ex) in
      Checked-Traded w o ex held _ Mode.live (log_live w o)
        (λ size pct.
          let all_ok = all (λ r. r.success) (fire w size o.legs) in
          live_entry o (if all_ok then estimate_pnl_usd size pct else nought) all_ok)
        m (λ e. cc) running room refl refl refl
        (λ size pct. (refl, refl, refl, live_profit w o size pct))
        (with_size-Checked w o (log_live w o) held)

  -- Handling an opportunity leaves the trade log as it is or appends one entry. An entry is of this
  -- opportunity and in the executor's mode, which is not the monitor mode; no circuit breaker was open
  -- and every cap had room; and the size, which the check of the depth gave, passed the check of
  -- profitability on the current books. The entry's profit is that of this size: on paper what the check
  -- expects, live the same if every leg is placed for it, else none.
  pub handle-Traded :
      (w : World F) (o : Opportunity F) (ex : Executor F)
      → let after = handle w o ex in (after.trade_log ≡ ex.trade_log) ⊎ Traded w o ex after
  unfolding handle reject can_trade
  handle-Traded w o ex = elim (Bool-cases (can_trade w.today (some o) ex.risk_manager).1) [
    | inl e ↦
        let passed = (can_trade_iff w.today o ex.risk_manager).0.0 e in
        rw e (dispatch-Traded w o ex ex.mode refl passed.0 passed.1)
    | inr e ↦ rw e (inl refl)
  ]
