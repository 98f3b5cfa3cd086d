-- ===== src/Book/Snapshot.antt =====
-- `OrderBook::build_snapshot` of src/order_book.cpp.
use financial_exchange.Common.{
  ℕ, zero, suc, ◌+◌, ◌-◌, true, false, List, [], ◌∷◌, ◌++◌, map, ltb, ◌==◌, if◌then◌else◌, length,
  replicate,
}
use financial_exchange.Types.{num_book_levels, order_book_message_depth}
use financial_exchange.Book.Side.{PriceLevel}
use financial_exchange.Book.Api.{OrderBook}

-- A (price, volume) pair for each level that the loop writes, from the best level on; `room` is
-- `ORDER_BOOK_MESSAGE_DEPTH - depth`. The bids go down to level 0, from level `rounds - 1`.
unfoldable pub entries_down : (ℕ → PriceLevel) → ℕ → ℕ → List (ℕ × ℕ)
entries_down levels room zero = []
entries_down levels room (suc idx) = elim (room == 0) [
  | true ↦ []
  | false ↦ elim (ltb 0 (levels idx).total_quantity) [
    | true ↦ ((levels idx).price, (levels idx).total_quantity) ∷ entries_down levels (room - 1) idx
    | false ↦ entries_down levels room idx
  ]
]

-- The asks go up, for the `rounds` levels from `idx` to the end.
unfoldable pub entries_up : (ℕ → PriceLevel) → ℕ → ℕ → ℕ → List (ℕ × ℕ)
entries_up levels room zero idx = []
entries_up levels room (suc rounds) idx = elim (room == 0) [
  | true ↦ []
  | false ↦ elim (ltb 0 (levels idx).total_quantity) [
    | true ↦
        ((levels idx).price, (levels idx).total_quantity)
        ∷ entries_up levels (room - 1) rounds (idx + 1)
    | false ↦ entries_up levels room rounds (idx + 1)
  ]
]

-- The arrays: filled with zeros first, written from the front.
abbrev pub padded : List ℕ → List ℕ
padded xs = xs ++ replicate (order_book_message_depth - length xs) 0

pub record Snapshot : Type 0 where
  pub bid_volumes : List ℕ
  pub bid_prices : List ℕ
  pub ask_volumes : List ℕ
  pub ask_prices : List ℕ

unfoldable pub bid_entries : OrderBook → List (ℕ × ℕ)
unfolding entries_down
bid_entries b =
    if ltb b.bids.best_price_index num_book_levels
    then entries_down b.bids.levels order_book_message_depth (b.bids.best_price_index + 1)
    else []

unfoldable pub ask_entries : OrderBook → List (ℕ × ℕ)
unfolding entries_up
ask_entries b =
    entries_up b.asks.levels order_book_message_depth (num_book_levels - b.asks.best_price_index)
      b.asks.best_price_index

unfoldable pub build_snapshot : OrderBook → Snapshot
unfolding bid_entries ask_entries
build_snapshot b = record {
  bid_volumes = padded (map (λ e. e.1) (bid_entries b));
  bid_prices = padded (map (λ e. e.0) (bid_entries b));
  ask_volumes = padded (map (λ e. e.1) (ask_entries b));
  ask_prices = padded (map (λ e. e.0) (ask_entries b));
}
