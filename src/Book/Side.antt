-- ===== src/Book/Side.antt =====
-- `PriceLevel` (src/pricelevel.hpp), the callbacks (src/callbacks.hpp) and the operations of
-- `OrderBookSide` other than matching (src/order_book.cpp). A callback is an event of the output,
-- in the order of the calls: no callback reads or changes the book.
use Prim.Native.String.{String}
use financial_exchange.Common.{
  ℕ, zero, suc, ◌+◌, ◌-◌, Bool, true, false, ◌||◌, Option, none, some, List, [], ◌∷◌, ltb, ◌==◌,
  if◌then◌else◌, update, add32, sub32,
}
use financial_exchange.Types.{
  Side, sell, buy, ErrorType, order_book_full, num_book_levels, minimum_bid,
}
use financial_exchange.Book.Pool.{Order, OrderPool, allocate, new_pool}

pub record PriceLevel : Type 0 where
  pub first : Option ℕ
  pub last : Option ℕ
  pub total_quantity : ℕ
  pub price : ℕ
  pub idx : ℕ

pub data Event : Type 0 where
  on_trade : Order → ℕ → ℕ → ℕ → ℕ → ℕ → ℕ → ℕ → Event
  on_order_inserted : ℕ → Order → ℕ → Event
  on_order_cancelled : ℕ → Order → ℕ → Event
  on_order_amended : ℕ → ℕ → Order → ℕ → Event
  on_level_update : Side → PriceLevel → ℕ → Event
  on_error : ℕ → ℕ → ErrorType → String → ℕ → Event

pub record OrderBookSide : Type 0 where
  pub levels : ℕ → PriceLevel
  pub pool : OrderPool
  pub is_bid : Bool
  pub best_price_index : ℕ

unfoldable pub new_side : (ℕ → Order) → (ℕ → Option ℕ) → Bool → OrderBookSide
unfolding new_pool
new_side memory links is_bid = record {
  levels = λ i. record {
    first = none;
    last = none;
    total_quantity = 0;
    price = minimum_bid + i;
    idx = i;
  };
  pool = new_pool memory links;
  is_bid = is_bid;
  best_price_index = num_book_levels;
}

-- `static_cast<size_t>(price - MINIMUM_BID)`, at prices that `submit_order` has let through.
unfoldable pub price_to_index : ℕ → ℕ
price_to_index price = price - minimum_bid

abbrev pub side_of : Bool → Side
side_of is_bid = if is_bid then buy else sell

unfoldable pub update_best_bid_after_order : ℕ → OrderBookSide → OrderBookSide
update_best_bid_after_order price_idx s =
    if s.best_price_index == num_book_levels || ltb s.best_price_index price_idx
    then record s { best_price_index = price_idx }
    else s

unfoldable pub update_best_ask_after_order : ℕ → OrderBookSide → OrderBookSide
update_best_ask_after_order price_idx s =
    if s.best_price_index == num_book_levels || ltb price_idx s.best_price_index
    then record s { best_price_index = price_idx }
    else s

-- `for (i = old_idx; i-- > 0; )`: the first non-empty level below, or `NUM_BOOK_LEVELS`.
unfoldable pub scan_down : (ℕ → PriceLevel) → ℕ → ℕ
scan_down levels zero = num_book_levels
scan_down levels (suc i) = elim (ltb 0 (levels i).total_quantity) [
  | true ↦ i
  | false ↦ scan_down levels i
]

-- `for (i = old_idx + 1; i < NUM_BOOK_LEVELS; ++i)`, by the number of rounds left.
unfoldable pub scan_up : (ℕ → PriceLevel) → ℕ → ℕ → ℕ
scan_up levels zero i = num_book_levels
scan_up levels (suc rounds) i = elim (ltb 0 (levels i).total_quantity) [
  | true ↦ i
  | false ↦ scan_up levels rounds (i + 1)
]

unfoldable pub update_best_bid_after_empty : OrderBookSide → OrderBookSide
update_best_bid_after_empty s = record s {
  best_price_index = scan_down s.levels s.best_price_index;
}

unfoldable pub update_best_ask_after_empty : OrderBookSide → OrderBookSide
update_best_ask_after_empty s =
    let old_idx = s.best_price_index in
    record s { best_price_index = scan_up s.levels (num_book_levels - (old_idx + 1)) (old_idx + 1) }

-- A slot becomes the last of its level's queue, with the order's data: `last->next_` or `first_`
-- leads to it.
unfoldable pub link_last : ℕ → ℕ → Order → OrderPool → OrderBookSide → OrderBookSide
link_last idx order contents p s =
    let level = s.levels idx in
    let ended = update p.next order none in
    record s {
      levels = update s.levels idx (record level {
        first = elim level.last [ some l ↦ level.first | none ↦ some order ];
        last = some order;
        total_quantity = add32 level.total_quantity contents.quantity_remaining;
      });
      pool = record p {
        pool = update p.pool order contents;
        next = elim level.last [ some l ↦ update ended l (some order) | none ↦ ended ];
        previous = update p.previous order level.last;
      };
    }

-- The slot of the new order, if there is one, the side after the call, and the callbacks made.
unfoldable pub add_order :
    (price quantity quantity_remaining order_id client_id client_request_id now : ℕ)
    → OrderBookSide
    → Option ℕ × OrderBookSide × List Event
unfolding price_to_index
add_order price quantity quantity_remaining order_id client_id client_request_id now s =
    let idx = price_to_index price in
    elim (allocate s.pool) [
      | none ↦ (
        none,
        s,
        on_error client_id client_request_id order_book_full "Order book is full." now ∷ [],
      )
      | some (order, p) ↦
          let contents : Order = record {
            client_id = client_id;
            order_id = order_id;
            order_handle = (p.pool order).order_handle;
            price = price;
            quantity = quantity;
            quantity_remaining = quantity_remaining;
            quantity_cumulative = sub32 quantity quantity_remaining;
            is_bid = s.is_bid;
          } in
          let s' = link_last idx order contents p s in
          let best =
            if s'.is_bid
            then update_best_bid_after_order idx s'
            else update_best_ask_after_order idx s' in
          (some order, best, on_level_update (side_of s.is_bid) (s'.levels idx) now ∷ [])
    ]
