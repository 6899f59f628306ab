-- ===== src/Tests/Detect.antt =====
-- The detectors, the graph and the dashboard at concrete inputs.
use crypto_arb_engine.Prelude.{
  Bool, ℕ, ◌+◌, length, ◌≡◌, ◌≢◌, Any, refl, ◌⊎◌, true, false, not, Option, none, some, List, [],
  ◌∷◌, map, filter, String, All,
}
use crypto_arb_engine.Prelude.Dict.{string_key, lookup, IsDict}
use crypto_arb_engine.Prelude.Int.{ℤ, pos, ◌-ℤ◌}
use crypto_arb_engine.Prelude.Text.{strip_prefix, partition_colon}
use crypto_arb_engine.Float.{IsNum, ◌<?◌, ◌≤?◌, ◌⊕◌, ◌⊖◌}
use crypto_arb_engine.Float.Ints.{int_float, int_key, int-IsOrdered}
use crypto_arb_engine.Core.Types.{Side}
use crypto_arb_engine.Core.Graph.{Edge, Graph, add_edge, find_cycles}
use crypto_arb_engine.Core.Graph.Cycles.{IsGain, find_cycles-IsGain}
use crypto_arb_engine.Core.Market.{MarketState, Row}
use crypto_arb_engine.Strategies.Pairs.{Settings, scan_symbol, cross_exchange, latency_arb}
use crypto_arb_engine.Strategies.Pairs.Spreads.{
  IsFound, cross_exchange-IsFound, latency_arb-IsFound,
}
use crypto_arb_engine.Dashboard.Broadcast.{publish, publish-eq-filter}
use crypto_arb_engine.Dashboard.Auth.{
  TicketStore, ticket_ttl_sec, expire, issue, consume, ScopeType, Reply, Request, Middleware,
  answer,
}
use crypto_arb_engine.Dashboard.Auth.Tickets.{HasPassword, consume-issue, answer_guards}
use crypto_arb_engine.Config.Venues.{register_transfer_status, min_order_usd_for}
use crypto_arb_engine.Engine.Filters.{dedupe_by_route, is_rebalanceable}
use crypto_arb_engine.Engine.Screen.{survey}
use crypto_arb_engine.Engine.Screen.Counts.{dropped, survey_counts}
use crypto_arb_engine.Engine.Screen.Passed.{Passed}
use crypto_arb_engine.Tests.Data.{spread, no_books, no_venues, no_metrics}

-- In place of the logarithm: it is zero at one and grows.
abbrev ln : ℤ → ℤ
ln x = x -ℤ pos 1

abbrev edge : String → String → ℤ → Edge ℤ
edge src dst rate = record {
  src = src;
  dst = dst;
  rate = rate;
  fee = pos 0;
  venue_id = "alpha";
  symbol = "X/Y";
  side = Side.buy;
}

-- A triangle that doubles what goes round it.
abbrev triangle : Graph ℤ
triangle =
    add_edge (edge "ETH" "USDT" (pos 2))
      (add_edge (edge "BTC" "ETH" (pos 1)) (add_edge (edge "USDT" "BTC" (pos 1)) []))

abbrev found_cycles : List (List String)
found_cycles = map (λ c. c.assets) (find_cycles ln triangle "USDT" 4 (some 100))

find_cycles-IsGain_example :
    All (IsGain ln triangle "USDT" 4) (find_cycles ln triangle "USDT" 4 (some 100))
find_cycles-IsGain_example = find_cycles-IsGain ln triangle "USDT" 4 (some 100)

abbrev market : MarketState ℤ
market = record {
  book_store = no_books;
  symbols = "BTC/USDT" ∷ [];
  taken_at = pos 0;
  funding_rates = [];
  futures_quotes = [];
  dex_pools = [];
  gas_price_usd = [];
  staleness_sec = pos 3;
  matrix_cache = [];
}

abbrev settings : Settings ℤ
settings = record { min_profit_pct = pos 10; max_trade_usd = pos 500; min_lag_sec = pos 1 }

abbrev rows : List (Row ℤ)
rows =
    record {
      venue_id = "alpha";
      bid_price = pos 90;
      ask_price = pos 100;
      bid_size = pos 2;
      ask_size = pos 2;
      timestamp = pos 4;
    }
    ∷ record {
      venue_id = "beta";
      bid_price = pos 200;
      ask_price = pos 210;
      bid_size = pos 2;
      ask_size = pos 2;
      timestamp = pos 7;
    }
    ∷ []

abbrev found_spreads : List ℤ
found_spreads =
    map (λ o. o.net_profit_pct)
      (scan_symbol (latency_arb settings) no_venues "BTC/USDT" (pos 8) rows)

cross_exchange-IsFound_example :
    All
      (IsFound settings no_venues rows)
      (scan_symbol (cross_exchange settings) no_venues "BTC/USDT" (pos 8) rows)
cross_exchange-IsFound_example =
    cross_exchange-IsFound settings no_venues int-IsOrdered "BTC/USDT" (pos 8) rows refl

latency_arb-IsFound_example :
    All
      (λ o.
        (found : IsFound settings no_venues rows o) × (pos 1
            ≤? (found.sell.1.timestamp ⊖ found.buy.1.timestamp)
          ≡ true))
      (scan_symbol (latency_arb settings) no_venues "BTC/USDT" (pos 8) rows)
latency_arb-IsFound_example =
    latency_arb-IsFound settings no_venues int-IsOrdered "BTC/USDT" (pos 8) rows refl

publish-eq-filter_example :
    publish (string_key.same "a") ("a" ∷ "b" ∷ "a" ∷ [])
    ≡ filter (string_key.same "a") ("a" ∷ "b" ∷ "a" ∷ [])
publish-eq-filter_example = publish-eq-filter (string_key.same "a") ("a" ∷ "b" ∷ "a" ∷ [])

abbrev tickets : TicketStore ℤ
tickets = ("old", pos 5) ∷ []

consume-issue_example :
    let first = consume (pos 20) (some "new") (issue (pos 10) "new" tickets) in
    (first.1 ≡ not (pos 10 ⊕ ticket_ttl_sec <? pos 20))
    × ((consume (pos 21) (some "new") first.0).1 ≡ false)
    × IsDict first.0
unfolding lookup
consume-issue_example = consume-issue (pos 10) (pos 20) (pos 21) "new" tickets (refl, tt) refl

abbrev guard : Middleware
guard = record { username = "admin"; password = "secret" }

abbrev request : Request
request = record { ticket = none; auth_header = "Basic admin:secret" }

-- The header is taken as it is.
abbrev reply : Option (TicketStore ℤ) × Reply
reply = answer (λ s. some s) (pos 3) guard ScopeType.websocket request (some tickets)

reply_passed : reply.1 ≡ Reply.passed
unfolding answer strip_prefix partition_colon expire
reply_passed = refl

answer_guards_example :
    HasPassword (λ s. some s) guard "Basic admin:secret"
    ⊎ ((ScopeType.websocket ≡ ScopeType.websocket)
        × ((s : TicketStore ℤ) × (t : String) × (some tickets ≡ some s)
            × (none ≡ some t)
            × (t ≢ "")
            × Any (λ e. (e.0 ≡ t) × (e.1 <? pos 3 ≡ false)) s))
answer_guards_example =
    answer_guards (λ s. some s) (pos 3) guard ScopeType.websocket request (some tickets) (λ e. cc)
      reply_passed

-- Two strategies that found one trade.
minimums : (venue : String) → IsNum (min_order_usd_for no_venues venue)
unfolding min_order_usd_for lookup
minimums venue = refl

survey_counts_example :
    let (kept, after) = survey no_venues (spread ∷ spread ∷ []) no_metrics in
    (length kept + dropped after ≡ 2) × All (Passed no_venues) kept
unfolding lookup
survey_counts_example =
    survey_counts int-IsOrdered no_venues (spread ∷ spread ∷ []) no_metrics minimums

abbrev deduped : ℕ
deduped = (dedupe_by_route (spread ∷ spread ∷ [])).1

abbrev moves_back : Bool
moves_back =
    is_rebalanceable (register_transfer_status "alpha" "BTC" (some false) none no_venues) spread

-- One is kept, the other is a duplicate of its route.
abbrev surveyed : ℕ × ℕ
surveyed =
    let (kept, after) = survey no_venues (spread ∷ spread ∷ []) no_metrics in
    (length kept, dropped after)
