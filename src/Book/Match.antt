-- ===== src/Book/Match.antt =====
-- `OrderBookSide::match_loop`, `match_buy` and `match_sell` of src/order_book.cpp.
use financial_exchange.Common.{
  ℕ, suc, ◌+◌, ◌*◌, ◌%◌, ◌^◌, min, Bool, not, ◌&&◌, Option, none, some, List, [], ◌∷◌, ◌++◌, ltb,
  leb, ◌==◌, if◌then◌else◌, update, is_some, add32, sub32,
}
use financial_exchange.Common.Loops.{while}
use financial_exchange.Types.{Side, sell, buy, num_book_levels}
use financial_exchange.Book.Pool.{Order, deallocate}
use financial_exchange.Book.Side.{
  OrderBookSide, Event, on_trade, on_level_update, update_best_bid_after_empty,
  update_best_ask_after_empty,
}

-- An `Order*`: the pool that it points into, and the slot.
pub record OrderPtr : Type 0 where
  pub in_bids : Bool
  pub slot : ℕ

-- `order_by_handle_` and `order_id_to_handle_` of the book.
pub record OrderIndex : Type 0 where
  pub order_by_handle : ℕ → Option OrderPtr
  pub order_id_to_handle : ℕ → Option ℕ

-- `order_handle_ * 2 + (is_bid_ ? 0 : 1)`, an `Id_t`.
unfoldable pub encode_handle : Order → ℕ
encode_handle o = (o.order_handle * 2 + (if o.is_bid then 0 else 1)) % 2 ^ 32

-- `order_id_to_handle.erase(order_id)`, and the write of `nullptr` at the encoded handle.
unfoldable pub forget_order : Order → OrderIndex → OrderIndex
unfolding encode_handle
forget_order o index = record {
  order_by_handle = update index.order_by_handle (encode_handle o) none;
  order_id_to_handle = update index.order_id_to_handle o.order_id none;
}

-- The arguments of `match_loop` that do not change.
pub record Taker : Type 0 where
  pub price : ℕ
  pub quantity : ℕ
  pub order_id : ℕ
  pub client_id : ℕ
  pub maker_side : Side
  pub crosses : ℕ → ℕ → Bool
  pub advance_best : OrderBookSide → OrderBookSide
  pub now : ℕ

-- What the loops change.
pub record MatchState : Type 0 where
  pub side : OrderBookSide
  pub incoming : ℕ
  pub index : OrderIndex
  pub events : List Event

-- A filled maker leaves the front of its level.
unfoldable pub remove_filled : Taker → ℕ → ℕ → MatchState → MatchState
unfolding deallocate
remove_filled t i maker m =
    let s = m.side in
    let level = s.levels i in
    let o = s.pool.pool maker in
    let popped : OrderBookSide = elim (s.pool.next maker) [
      | some n ↦ record s {
        levels = update s.levels i (record level { first = some n });
        pool = record s.pool { previous = update s.pool.previous n none };
      }
      | none ↦
          t.advance_best
            (record s { levels = update s.levels i (record level { first = none; last = none }) })
    ] in
    record m {
      side = record popped { pool = deallocate maker popped.pool };
      index = forget_order o m.index;
    }

-- The trade with the maker at the front of level `i`.
unfoldable pub trade : Taker → ℕ → ℕ → MatchState → MatchState
trade t i maker m =
    let s = m.side in
    let level = s.levels i in
    let o = s.pool.pool maker in
    let trade_quantity = min o.quantity_remaining m.incoming in
    let filled = record o {
      quantity_remaining = sub32 o.quantity_remaining trade_quantity;
      quantity_cumulative = add32 o.quantity_cumulative trade_quantity;
    } in
    let incoming = sub32 m.incoming trade_quantity in
    record m {
      side = record s {
        levels =
            update s.levels i
              (record level { total_quantity = sub32 level.total_quantity trade_quantity });
        pool = record s.pool { pool = update s.pool.pool maker filled };
      };
      incoming = incoming;
      events =
          m.events
          ++ (on_trade filled t.client_id t.order_id filled.price t.quantity
                (sub32 t.quantity incoming) trade_quantity t.now
              ∷ []);
    }

-- `while (incoming_quantity > 0 && level->first_)`
unfoldable pub level_test : ℕ → MatchState → Bool
level_test i m = ltb 0 m.incoming && is_some (m.side.levels i).first

unfoldable pub level_body : Taker → ℕ → MatchState → MatchState
level_body t i m = elim (m.side.levels i).first [
  | none ↦ m
  | some maker ↦
      let traded = trade t i maker m in
      if (traded.side.pool.pool maker).quantity_remaining == 0
      then remove_filled t i maker traded
      else traded
]

-- Each round takes at least one from the incoming quantity, which so bounds the rounds.
unfoldable pub match_level : Taker → ℕ → MatchState → MatchState
match_level t i m = while (level_test i) (level_body t i) (suc m.incoming) m

-- The outer loop runs while there is quantity, the side is not empty and its best price crosses.
unfoldable pub match_test : Taker → MatchState → Bool
match_test t m =
    ltb 0 m.incoming
    && not (m.side.best_price_index == num_book_levels)
    && t.crosses (m.side.levels m.side.best_price_index).price t.price

unfoldable pub match_body : Taker → MatchState → MatchState
match_body t m =
    let i = m.side.best_price_index in
    let m' = match_level t i m in
    record m' { events = m'.events ++ (on_level_update t.maker_side (m'.side.levels i) t.now ∷ []) }

unfoldable pub match_loop : Taker → OrderBookSide → OrderIndex → MatchState
match_loop t s index =
    while (match_test t) (match_body t) (suc t.quantity)
      (record { side = s; incoming = t.quantity; index = index; events = [] })

unfoldable pub buy_taker : (price quantity order_id client_id now : ℕ) → Taker
buy_taker price quantity order_id client_id now = record {
  price = price;
  quantity = quantity;
  order_id = order_id;
  client_id = client_id;
  maker_side = sell;
  crosses = λ level_price incoming. leb level_price incoming;
  advance_best = update_best_ask_after_empty;
  now = now;
}

unfoldable pub sell_taker : (price quantity order_id client_id now : ℕ) → Taker
sell_taker price quantity order_id client_id now = record {
  price = price;
  quantity = quantity;
  order_id = order_id;
  client_id = client_id;
  maker_side = buy;
  crosses = λ level_price incoming. leb incoming level_price;
  advance_best = update_best_bid_after_empty;
  now = now;
}

unfoldable pub match_buy :
    (price quantity order_id client_id now : ℕ) → OrderBookSide → OrderIndex → MatchState
match_buy price quantity order_id client_id now =
    match_loop (buy_taker price quantity order_id client_id now)

unfoldable pub match_sell :
    (price quantity order_id client_id now : ℕ) → OrderBookSide → OrderIndex → MatchState
match_sell price quantity order_id client_id now =
    match_loop (sell_taker price quantity order_id client_id now)
