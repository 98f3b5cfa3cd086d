-- ===== src/Book/Api.antt =====
-- `OrderBook` of src/order_book.hpp and src/order_book.cpp: construction and the three requests.
-- A request returns the book after the call and the callbacks made. `none` is a read through a
-- pointer that the index does not hold.
use Prim.Native.String.{String}
use financial_exchange.Common.{
  ℕ, ◌+◌, ◌*◌, ◌%◌, ◌^◌, Bool, true, false, ◌&&◌, ◌||◌, Option, none, some, List, [], ◌∷◌, ◌++◌,
  ltb, ◌==◌, if◌then◌else◌, update, is_some, add32, sub32, ℤ, pos, negsuc, not,
}
use financial_exchange.Types.{
  ErrorType, invalid_volume, invalid_price, order_not_found, unauthorised, minimum_bid, maximum_ask,
}
use financial_exchange.Book.Pool.{Order, deallocate}
use financial_exchange.Book.Side.{
  OrderBookSide, Event, on_order_inserted, on_order_cancelled, on_order_amended, on_level_update,
  on_error, new_side, price_to_index, side_of, add_order, update_best_bid_after_empty,
  update_best_ask_after_empty,
}
use financial_exchange.Book.Match.{OrderPtr, OrderIndex, forget_order, match_buy, match_sell}

pub record OrderBook : Type 0 where
  pub bids : OrderBookSide
  pub asks : OrderBookSide
  pub order_id : ℕ
  pub index : OrderIndex

-- What a call reads from the clock: `utc_now_ns()` in the request, in `match_loop`, in `add_order`.
pub record Times : Type 0 where
  pub request : ℕ
  pub matching : ℕ
  pub adding : ℕ

unfoldable pub new_book : (ℕ → Order) → (ℕ → Option ℕ) → OrderBook
unfolding new_side
new_book memory links = record {
  bids = new_side memory links true;
  asks = new_side memory links false;
  order_id = 0;
  index = record { order_by_handle = λ i. none; order_id_to_handle = λ i. none };
}

-- `emplace` leaves an entry that is there.
unfoldable pub emplace : ℕ → ℕ → (ℕ → Option ℕ) → ℕ → Option ℕ
emplace k v m = elim (m k) [ some w ↦ m | none ↦ update m k (some v) ]

unfoldable pub deref : OrderBook → OrderPtr → Order
deref b p = if p.in_bids then b.bids.pool.pool p.slot else b.asks.pool.pool p.slot

-- The resting remainder of a new order: `order_handle_ * 2 + (is_bid ? 0 : 1)` leads to its slot.
unfoldable pub index_resting : Bool → ℕ → ℕ → ℕ → OrderIndex → OrderIndex
unfolding emplace
index_resting is_bid slot order_handle order_id index =
    let encoded = (order_handle * 2 + (if is_bid then 0 else 1)) % 2 ^ 32 in
    record {
      order_by_handle =
          update index.order_by_handle encoded (some (record { in_bids = is_bid; slot = slot }));
      order_id_to_handle = emplace order_id encoded index.order_id_to_handle;
    }

-- A buy order that passed the checks: matched with the asks, its remainder added to the bids.
unfoldable pub submit_bid :
    (price quantity client_id client_request_id : ℕ) → Times → OrderBook → OrderBook × List Event
submit_bid price quantity client_id client_request_id now b =
    let order_id = b.order_id in
    let m = match_buy price quantity order_id client_id now.matching b.asks b.index in
    let matched = record b { asks = m.side; index = m.index; order_id = add32 order_id 1 } in
    let (resting, bids, callbacks) =
      add_order price quantity m.incoming order_id client_id client_request_id now.adding b.bids in
    if ltb 0 m.incoming
    then elim resting [
      | none ↦ (record matched { bids = bids }, m.events ++ callbacks)
      | some slot ↦
          let o = bids.pool.pool slot in
          (
            record matched {
              bids = bids;
              index = index_resting true slot o.order_handle order_id m.index;
            },
            m.events ++ (callbacks ++ (on_order_inserted client_request_id o now.request ∷ [])),
          )
    ]
    else (matched, m.events)

unfoldable pub submit_ask :
    (price quantity client_id client_request_id : ℕ) → Times → OrderBook → OrderBook × List Event
submit_ask price quantity client_id client_request_id now b =
    let order_id = b.order_id in
    let m = match_sell price quantity order_id client_id now.matching b.bids b.index in
    let matched = record b { bids = m.side; index = m.index; order_id = add32 order_id 1 } in
    let (resting, asks, callbacks) =
      add_order price quantity m.incoming order_id client_id client_request_id now.adding b.asks in
    if ltb 0 m.incoming
    then elim resting [
      | none ↦ (record matched { asks = asks }, m.events ++ callbacks)
      | some slot ↦
          let o = asks.pool.pool slot in
          (
            record matched {
              asks = asks;
              index = index_resting false slot o.order_handle order_id m.index;
            },
            m.events ++ (callbacks ++ (on_order_inserted client_request_id o now.request ∷ [])),
          )
    ]
    else (matched, m.events)

-- `price < MINIMUM_BID || price > MAXIMUM_ASK`, for a signed price.
unfoldable pub price_invalid : ℤ → Bool
price_invalid (pos p) = ltb p minimum_bid || ltb maximum_ask p
price_invalid (negsuc n) = true

-- The value of a price that is not negative, as every price past the check is.
abbrev pub price_value : ℤ → ℕ
price_value (pos p) = p
price_value (negsuc n) = 0

unfoldable pub submit_order :
    (price : ℤ) (quantity : ℕ) (is_bid : Bool) (client_id client_request_id : ℕ)
    → Times
    → OrderBook
    → OrderBook × List Event
submit_order price quantity is_bid client_id client_request_id now b =
    if quantity == 0
    then (
      b,
      on_error client_id client_request_id invalid_volume "Invalid order size." now.request ∷ [],
    )
    else if price_invalid price
    then (b, on_error client_id client_request_id invalid_price "Invalid price." now.request ∷ [])
    else if is_bid
    then submit_bid (price_value price) quantity client_id client_request_id now b
    else submit_ask (price_value price) quantity client_id client_request_id now b

-- The pointer surgery of `remove_order` on the queue of level `idx`, and the slot's deallocation.
unfoldable pub unlink_order : ℕ → ℕ → OrderBookSide → OrderBookSide
unfolding deallocate
unlink_order slot idx s =
    let p = s.pool in
    let level = s.levels idx in
    let next' : ℕ → Option ℕ = elim (p.previous slot) [
      | some before ↦ update p.next before (p.next slot)
      | none ↦ p.next
    ] in
    let first' : Option ℕ = elim (p.previous slot) [
      | some before ↦ level.first
      | none ↦ p.next slot
    ] in
    let previous' : ℕ → Option ℕ = elim (next' slot) [
      | some after ↦ update p.previous after (p.previous slot)
      | none ↦ p.previous
    ] in
    let last' : Option ℕ = elim (next' slot) [ some after ↦ level.last | none ↦ p.previous slot ] in
    record s {
      levels = update s.levels idx (record level { first = first'; last = last' });
      pool = deallocate slot (record p { next = next'; previous = previous' });
    }

-- The side that `order->is_bid_` selects, and its replacement.
abbrev pub book_side : Bool → OrderBook → OrderBookSide
book_side is_bid b = if is_bid then b.bids else b.asks

abbrev pub set_side : Bool → OrderBookSide → OrderBook → OrderBook
set_side is_bid s b = if is_bid then record b { bids = s } else record b { asks = s }

abbrev pub update_best_after_empty : Bool → OrderBookSide → OrderBookSide
update_best_after_empty is_bid s =
    if is_bid then update_best_bid_after_empty s else update_best_ask_after_empty s

unfoldable pub remove_order : ℕ → Order → OrderBook → OrderBook
remove_order slot o b =
    let s = unlink_order slot (price_to_index o.price) (book_side o.is_bid b) in
    record (set_side o.is_bid s b) { index = forget_order o b.index }

abbrev pub refuse :
    (client_id client_request_id : ℕ) → ErrorType → String → ℕ → OrderBook → OrderBook × List Event
refuse client_id client_request_id code message now b =
    (b, on_error client_id client_request_id code message now ∷ [])

-- The lookup that cancel and amend share: `order_id_to_handle_.find`, then `order_by_handle_`.
unfoldable pub find_order : ℕ → OrderBook → Option OrderPtr
find_order order_id b = elim (b.index.order_id_to_handle order_id) [
  | none ↦ none
  | some order_handle ↦ b.index.order_by_handle order_handle
]

-- `cancel_order` past its checks.
unfoldable pub cancel_found : ℕ → ℕ → Order → ℕ → OrderBook → OrderBook × List Event
cancel_found client_request_id slot o now b =
    let s = book_side o.is_bid b in
    let idx = price_to_index o.price in
    let level = s.levels idx in
    let reduced = record s {
      levels =
          update s.levels idx
            (record level { total_quantity = sub32 level.total_quantity o.quantity_remaining });
    } in
    let removed = remove_order slot o (set_side o.is_bid reduced b) in
    let s' = book_side o.is_bid removed in
    let level' = s'.levels idx in
    let b' =
      if not (is_some level'.first) && s'.best_price_index == level'.idx
      then set_side o.is_bid (update_best_after_empty o.is_bid s') removed
      else removed in
    (
      b',
      on_level_update (side_of o.is_bid) level' now
          ∷ on_order_cancelled client_request_id o now
          ∷ [],
    )

unfoldable pub cancel_order :
    (client_id client_request_id order_id now : ℕ) → OrderBook → OrderBook × List Event
unfolding find_order deref
cancel_order client_id client_request_id order_id now b = elim (find_order order_id b) [
  | none ↦ refuse client_id client_request_id order_not_found "Order ID not found." now b
  | some ptr ↦
      let o = deref b ptr in
      if o.client_id == client_id
      then cancel_found client_request_id ptr.slot o now b
      else refuse client_id client_request_id unauthorised "Unauthorised request." now b
]

-- `amend_order` past its checks: the new quantity is smaller than the old.
unfoldable pub amend_found : ℕ → ℕ → Order → ℕ → ℕ → OrderBook → OrderBook × List Event
amend_found client_request_id slot o quantity_new now b =
    let remaining = sub32 quantity_new o.quantity_cumulative in
    let delta = sub32 o.quantity_remaining remaining in
    let s = book_side o.is_bid b in
    let idx = price_to_index o.price in
    let level = s.levels idx in
    let amended = record o { quantity = quantity_new; quantity_remaining = remaining } in
    let level' = record level { total_quantity = sub32 level.total_quantity delta } in
    let s' = record s {
      levels = update s.levels idx level';
      pool = record s.pool { pool = update s.pool.pool slot amended };
    } in
    let s'' =
      if level'.total_quantity == 0 then update_best_after_empty amended.is_bid s' else s' in
    let b' = set_side o.is_bid s'' b in
    (
      if remaining == 0 then remove_order slot amended b' else b',
      on_order_amended client_request_id o.quantity amended now
          ∷ on_level_update (side_of amended.is_bid) level' now
          ∷ [],
    )

unfoldable pub amend_order :
    (client_id client_request_id order_id quantity_new now : ℕ) → OrderBook → OrderBook × List Event
unfolding find_order deref
amend_order client_id client_request_id order_id quantity_new now b = elim (find_order order_id b) [
  | none ↦ refuse client_id client_request_id order_not_found "Order ID not found." now b
  | some ptr ↦
      let o = deref b ptr in
      if not (o.client_id == client_id)
      then refuse client_id client_request_id unauthorised "Unauthorised request." now b
      else if ltb quantity_new o.quantity_cumulative
      then refuse client_id client_request_id invalid_volume "Invalid order size." now b
      else if ltb o.quantity_remaining (sub32 quantity_new o.quantity_cumulative)
      then refuse client_id client_request_id invalid_volume "Invalid order size." now b
      else if sub32 quantity_new o.quantity_cumulative == o.quantity_remaining
      then (b, on_order_amended client_request_id o.quantity o now ∷ [])
      else amend_found client_request_id ptr.slot o quantity_new now b
]
