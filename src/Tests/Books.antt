-- ===== src/Tests/Books.antt =====
-- The order books and the venue tables at concrete inputs.
use crypto_arb_engine.Prelude.{
  ◌≡◌, ◌≢◌, refl, ◌⊎◌, false, none, some, List, [], ◌∷◌, map, String, All,
}
use crypto_arb_engine.Prelude.Dict.{lookup, string_key, pair_key}
use crypto_arb_engine.Prelude.Int.{ℤ, pos}
use crypto_arb_engine.Float.{◌<?◌, nought, sum_from}
use crypto_arb_engine.Float.Ints.{int_float, int_key, int-IsOrdered, int-IsRounded, int-IsExact}
use crypto_arb_engine.Core.Types.{Side}
use crypto_arb_engine.Core.Book.{
  Level, BookState, vwap_fill_price, new_book, find_book, books_for_symbol,
}
use crypto_arb_engine.Core.Book.Fill.{vwap_fills_min}
use crypto_arb_engine.Core.Book.Index.{scan_books}
use crypto_arb_engine.Core.Book.Refines.{
  Message, IsClean, IsSound, sizes_of, receive_all, receive_all_sizes, new_book_refines,
}
use crypto_arb_engine.Core.Book.Delivery.{
  Delivery, deliver_all, empty_store, received, deliver_all_lem,
}
use crypto_arb_engine.Config.Venues.{
  fee_key, can_withdraw, can_deposit, register_transfer_status, register_live_fees, taker_fee_for,
}
use crypto_arb_engine.Config.Venues.Lookup.{
  IsBlockTable, register_transfer_status_lem, register_live_fees_lem,
}
use crypto_arb_engine.Tests.Data.{no_venues}

abbrev state : BookState ℤ
state = record {
  bids = (pos 99, pos 3) ∷ (pos 98, pos 1) ∷ [];
  asks = (pos 100, pos 2) ∷ (pos 102, pos 5) ∷ [];
  timestamp = pos 0;
}

-- One new price, and one that goes.
abbrev updates : List (Level ℤ)
updates = (pos 101, pos 4) ∷ (pos 100, pos 0) ∷ []

vwap_fills_min_example :
    let filled = (vwap_fill_price state Side.buy (pos 9)).1 in
    let depth = sum_from nought (map (λ l. l.1) state.asks) in
    (pos 9 <? filled ≡ false) × (depth <? filled ≡ false) × ((filled ≡ pos 9) ⊎ (filled ≡ depth))
vwap_fills_min_example =
    vwap_fills_min int-IsOrdered int-IsRounded int-IsExact state Side.buy (pos 9) refl
      (refl, (refl, tt))

-- A snapshot, and an update by which the best ask goes away.
abbrev messages : List (Message ℤ)
messages = Message.snapshot (pos 1) state.bids state.asks ∷ Message.diff (pos 2) [] updates ∷ []

messages-IsClean : All IsClean messages
unfolding lookup
messages-IsClean = (
  ((refl, (refl, tt)), (refl, (refl, tt)), (refl, (refl, tt)), (refl, (refl, tt))),
  ((tt, (refl, (refl, tt))), tt),
)

new_book_refines_example :
    (sizes_of (receive_all messages (new_book "alpha" "BTC/USDT"))
      ≡ receive_all_sizes messages (record { bid = λ p. none; ask = λ p. none }))
    × IsSound (receive_all messages (new_book "alpha" "BTC/USDT"))
new_book_refines_example =
    new_book_refines int-IsOrdered "alpha" "BTC/USDT" messages messages-IsClean

abbrev deliveries : List (Delivery ℤ)
deliveries =
    record {
      venue_id = "alpha";
      symbol = "BTC/USDT";
      message = Message.snapshot (pos 1) state.bids state.asks;
    }
    ∷ record {
      venue_id = "beta";
      symbol = "BTC/USDT";
      message = Message.snapshot (pos 1) state.bids [];
    }
    ∷ record { venue_id = "alpha"; symbol = "BTC/USDT"; message = Message.diff (pos 2) [] updates }
    ∷ []

deliver_all_lem_example :
    let st = deliver_all deliveries empty_store in
    (find_book st "alpha" "BTC/USDT" ≡ received "alpha" "BTC/USDT" deliveries none)
    × (books_for_symbol st "BTC/USDT" ≡ scan_books "BTC/USDT" st.books)
deliver_all_lem_example = deliver_all_lem deliveries "alpha" "BTC/USDT"

no_venues-IsBlockTable : IsBlockTable no_venues
no_venues-IsBlockTable = record { withdraw_once = tt; deposit_once = tt }

register_transfer_status_lem_example :
    let t = register_transfer_status "alpha" "BTC" (some false) none no_venues in
    (can_withdraw t "alpha" "BTC" ≡ false)
    × (can_deposit t "alpha" "BTC" ≡ can_deposit no_venues "alpha" "BTC")
    × IsBlockTable t
register_transfer_status_lem_example =
    register_transfer_status_lem "alpha" "BTC" "alpha" "BTC" (some false) none no_venues
      no_venues-IsBlockTable

register_live_fees_lem_example :
    let set_symbol = register_live_fees "alpha" (some "BTC/USDT") (some (pos 7)) none no_venues in
    (taker_fee_for set_symbol "alpha" (pos 1) (some "BTC/USDT") ≡ pos 7)
    × (lookup ("alpha", some "ETH/USDT") no_venues.live_taker ≡ none
        → taker_fee_for
            (register_live_fees "alpha" none (some (pos 7)) none no_venues)
            "alpha"
            (pos 1)
            (some "ETH/USDT")
          ≡ pos 7)
    × (◌≢◌ {A = String} "alpha" "beta"
        → taker_fee_for set_symbol "beta" (pos 1) (some "ETH/USDT")
          ≡ taker_fee_for no_venues "beta" (pos 1) (some "ETH/USDT"))
register_live_fees_lem_example =
    register_live_fees_lem no_venues "alpha" "BTC/USDT" "beta" "ETH/USDT" (pos 7) (pos 1) none
