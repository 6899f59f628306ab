-- ===== src/Core/Book.antt =====
-- core/book.py. The price and the size array of one side are always built together from one list of
-- levels, so a side is a list of (price, size).
mod Defs
mod Store
pub mod Fill
pub mod Levels
pub mod Diff
pub mod Index
pub mod Refines
pub mod Delivery
unfoldable pub use Defs.{vwap_fill_price, fill, age_sec, replace, apply_diff, best_bid, best_ask}
unfoldable pub use Defs.{best_bid_size, best_ask_size}
pub use Defs.*
unfoldable pub use Store.{
  get_or_create, find_book, books_for_symbol, venues_for_symbol, all_symbols, all_venues, add_new,
  unique,
}
pub use Store.*
