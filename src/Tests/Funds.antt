-- ===== src/Tests/Funds.antt =====
-- The inventory and the router at concrete inputs.
use crypto_arb_engine.Prelude.{String, ◌⊎◌, ◌≡◌, refl, ◌+◌, none, some, [], ◌∷◌, length}
use crypto_arb_engine.Prelude.Dict.{lookup, set}
use crypto_arb_engine.Prelude.Text.{split_slash}
use crypto_arb_engine.Prelude.Int.{ℤ, pos, negsuc, ◌*ℤ◌, ◌+ℤ◌}
use crypto_arb_engine.Prelude.Sort.{sort}
use crypto_arb_engine.Float.Ints.{int_float, int-IsOrdered, int-IsRounded, int-IsExact}
use crypto_arb_engine.Core.Types.{Mode, Opportunity, Reservation}
use crypto_arb_engine.Execution.Inventory.{get_balance, Inventory, reserve, credit}
use crypto_arb_engine.Execution.Inventory.Totals.{cell}
use crypto_arb_engine.Execution.Inventory.Solvent.{
  IsSolvent, credit-IsSolvent, Move, moves, moves-IsSolvent,
}
use crypto_arb_engine.Execution.Router.{leg_amount, leg_asset, select, settle_fill, by_value_down}
use crypto_arb_engine.Execution.Router.Cells.{pays}
use crypto_arb_engine.Execution.Router.Select.{
  IsLocked, Picks, reservations_of, select_locks, select_counts, turned_away,
}
use crypto_arb_engine.Execution.Router.Settle.{gains, settle_fill_moves}
use crypto_arb_engine.Execution.Executor.{handle}
use crypto_arb_engine.Execution.Executor.Trades.{Traded}
use crypto_arb_engine.Engine.Tick.{Engine, execute, decide}
use crypto_arb_engine.Engine.Tick.Balances.{execute_balances}
use crypto_arb_engine.Engine.Tick.Unlocked.{decide_unlocks}
use crypto_arb_engine.Tests.Data.{world, executor, spread, no_metrics}

abbrev funds : Inventory ℤ
funds = credit (credit [] "alpha" "USDT" (pos 500)) "beta" "BTC" (pos 5)

empty-IsSolvent : IsSolvent {F = ℤ} []
unfolding cell get_balance lookup
empty-IsSolvent k = (refl, refl)

funds-IsSolvent : IsSolvent funds
funds-IsSolvent =
    credit-IsSolvent int-IsOrdered int-IsRounded (credit [] "alpha" "USDT" (pos 500)) "beta" "BTC"
      (pos 5)
      (credit-IsSolvent int-IsOrdered int-IsRounded [] "alpha" "USDT" (pos 500) empty-IsSolvent)

moves-IsSolvent_example : IsSolvent (
    moves
      (Move.reserves "alpha" "USDT" (pos 900) ∷ Move.settles "beta" "BTC" (negsuc 1) ∷ [])
      funds)
moves-IsSolvent_example =
    moves-IsSolvent int-IsOrdered int-IsRounded
      (Move.reserves "alpha" "USDT" (pos 900) ∷ Move.settles "beta" "BTC" (negsuc 1) ∷ []) funds
      (refl, (tt, tt)) funds-IsSolvent

-- The third opportunity finds too few dollars left.
select_locks_example :
    let (after, _, accepted) = select funds none (spread ∷ spread ∷ spread ∷ []) in
    IsLocked funds after (reservations_of accepted)
    × Picks ℤ accepted (sort by_value_down (spread ∷ spread ∷ spread ∷ []))
select_locks_example =
    select_locks int-IsOrdered int-IsRounded int-IsExact funds none (spread ∷ spread ∷ spread ∷ [])
      funds-IsSolvent

select_counts_example :
    let (_, after, accepted) = select funds (some no_metrics) (spread ∷ spread ∷ spread ∷ []) in
    turned_away after + length accepted ≡ turned_away (some no_metrics) + 3
select_counts_example = select_counts funds no_metrics (spread ∷ spread ∷ spread ∷ [])

abbrev dollars : Reservation ℤ
dollars = record { venue_id = "alpha"; asset = "USDT"; amount = pos 200 }

abbrev coins : Reservation ℤ
coins = record { venue_id = "beta"; asset = "BTC"; amount = pos 2 }

abbrev taken : Opportunity ℤ
taken = record spread { reservations = some (dollars ∷ coins ∷ []) }

abbrev locked : Inventory ℤ
locked = (select funds none (spread ∷ [])).0

locked-IsLocked : IsLocked funds locked (dollars ∷ coins ∷ [])
unfolding select sort leg_amount ◌*ℤ◌ reserve get_balance lookup credit set leg_asset split_slash
    ◌+ℤ◌
locked-IsLocked =
    (select_locks int-IsOrdered int-IsRounded int-IsExact funds none (spread ∷ [])
      funds-IsSolvent).0

settle_fill_moves_example :
    cell (settle_fill locked taken).0 ("alpha", "BTC")
    ≡ gains taken.legs
        ("alpha", "BTC")
        (pays (dollars ∷ coins ∷ []) ("alpha", "BTC") (cell funds ("alpha", "BTC")))
settle_fill_moves_example =
    settle_fill_moves int-IsOrdered int-IsRounded int-IsExact funds locked taken dollars
      (coins ∷ []) refl funds-IsSolvent locked-IsLocked ("alpha", "BTC")

abbrev engine : Engine ℤ
engine = record { executor = executor Mode.paper; inventory = locked }

execute_balances_example :
    let after = execute world taken engine in
    ((after.executor.trade_log ≡ [])
      × ((k : String × String) → cell after.inventory k ≡ cell funds k))
    ⊎ (Traded world taken (executor Mode.paper) (handle world taken (executor Mode.paper))
        × (after.executor.trade_log ≡ (handle world taken (executor Mode.paper)).trade_log)
        × ((k : String × String)
            → cell after.inventory k
              ≡ gains taken.legs k (pays (dollars ∷ coins ∷ []) k (cell funds k))))
execute_balances_example =
    execute_balances int-IsOrdered int-IsRounded int-IsExact world taken engine funds dollars
      (coins ∷ []) refl funds-IsSolvent locked-IsLocked

abbrev start : Engine ℤ
start = record { executor = executor Mode.paper; inventory = funds }

-- Two opportunities are traded, for the third there are too few dollars left.
decide_unlocks_example :
    (cell (decide (λ n. world) (spread ∷ spread ∷ spread ∷ []) start).inventory ("alpha", "USDT")).1
    ≡ pos 0
unfolding cell get_balance lookup credit set
decide_unlocks_example =
    decide_unlocks int-IsOrdered int-IsRounded int-IsExact (λ n. world)
      (spread ∷ spread ∷ spread ∷ []) start (λ e. cc) funds-IsSolvent ("alpha", "USDT")

-- What a tick leaves of the dollars and of the coins: two trades' cost and gain, with nothing locked.
abbrev left : (ℤ × ℤ) × (ℤ × ℤ)
left =
    let inv = (decide (λ n. world) (spread ∷ spread ∷ spread ∷ []) start).inventory in
    (cell inv ("alpha", "USDT"), cell inv ("alpha", "BTC"))
