-- ===== src/Book/Tests.antt =====
-- Concrete books: the theorems at inputs that meet their hypotheses, and runs of the requests.
use financial_exchange.Common.{
  take, ℕ, ◌+◌, ◌≡◌, ◌≢◌, ◌⊎◌, refl, ◌≤◌, ◌<◌, true, false, none, some, [], ◌∷◌, arith, pos,
}
use financial_exchange.Common.{add32, sub32}
use financial_exchange.Common.Loops.{while}
use financial_exchange.Book.Pool.{Order, new_pool, allocate, deallocate}
use financial_exchange.Book.Side.{
  new_side, link_last, add_order, price_to_index, update_best_bid_after_order,
  update_best_ask_after_order, scan_down, scan_up, update_best_bid_after_empty,
  update_best_ask_after_empty,
}
use financial_exchange.Book.Match.{
  encode_handle, OrderPtr, forget_order, remove_filled, trade, level_test, level_body, match_level,
  match_test, match_body, match_loop, buy_taker, sell_taker, match_buy, match_sell,
}
use financial_exchange.Book.Api.{
  refuse, OrderBook, Times, new_book, emplace, deref, index_resting, submit_bid, submit_ask,
  price_invalid, submit_order, unlink_order, remove_order, find_order, cancel_found, cancel_order,
  amend_found, amend_order,
}
use financial_exchange.Types.{
  order_book_message_depth, num_book_levels, invalid_volume, invalid_price, order_not_found,
}
use financial_exchange.Book.Side.{on_order_amended}
use financial_exchange.Book.Submitting.{IsBook, submit_order-IsBook}
use financial_exchange.Book.Initial.{new_book-IsBook}
use financial_exchange.Book.Matcher.{IsOrdered}
use financial_exchange.Book.MatchLoop.{BestAsk, BestBid, match_buy_lem, match_sell_lem}
use financial_exchange.Book.Matching.{traded}
use financial_exchange.Book.Placing.{InRange, Placed, submit_order-answers}
use financial_exchange.Book.Cancelling.{cancel_order-gone}
use financial_exchange.Book.Errors.{amend_order_cases}
use financial_exchange.Book.Snapshot.{bid_entries, ask_entries}
use financial_exchange.Book.Depth.{occupied_down, occupied_up, bid_entries-occupied_down}
use financial_exchange.Book.Amending.{amend_loses-BestBid}

abbrev blank : Order
blank = record {
  client_id = 0;
  order_id = 0;
  order_handle = 0;
  price = 0;
  quantity = 0;
  quantity_remaining = 0;
  quantity_cumulative = 0;
  is_bid = false;
}

abbrev times : Times
times = record { request = 7; matching = 8; adding = 9 }

abbrev fresh : OrderBook
fresh = new_book (λ i. blank) (λ i. none)

new_book-IsBook_example : IsBook (new_book (λ i. blank) (λ i. none))
new_book-IsBook_example = new_book-IsBook (λ i. blank) (λ i. none)

submit_order-IsBook_example : IsBook (submit_order (pos 100) 5 true 1 1 times fresh).0
unfolding new_book
submit_order-IsBook_example =
    submit_order-IsBook (pos 100) 5 true 1 1 times fresh (new_book-IsBook (λ i. blank) (λ i. none))
      (omega arith) (omega arith)

-- The line names what a run computes with.
runs : OrderBook → OrderBook
unfolding new_book new_side new_pool allocate deallocate link_last add_order price_to_index while
    update_best_bid_after_order update_best_ask_after_order scan_down scan_up
    update_best_bid_after_empty update_best_ask_after_empty encode_handle forget_order remove_filled
    trade level_test level_body match_level match_test match_body match_loop buy_taker sell_taker
    match_buy match_sell emplace deref index_resting submit_bid submit_ask price_invalid
    submit_order unlink_order remove_order find_order cancel_found cancel_order amend_found
    amend_order add32 sub32
runs b = b

-- Two asks, then a buy order that takes the first and part of the second.
asked : OrderBook
asked =
    (submit_order (pos 101) 4 false 2 2 times (submit_order (pos 100) 3 false 1 1 times fresh).0).0

bought : OrderBook
bought = runs (submit_order (pos 101) 5 true 3 3 times asked).0

bought_runs :
    (bought.asks.best_price_index ≡ 100)
    × ((bought.asks.levels 100).total_quantity ≡ 2)
    × (bought.bids.best_price_index ≡ 10_000)
unfolding bought asked runs
bought_runs = (refl, refl, refl)

-- A book with one ask of 3 at 100, and one with one bid of 3 at 100.
abbrev one_ask : OrderBook
one_ask = (submit_order (pos 100) 3 false 1 1 times fresh).0

abbrev one_bid : OrderBook
one_bid = (submit_order (pos 100) 3 true 1 1 times fresh).0

one_ask-IsBook : IsBook one_ask
unfolding new_book
one_ask-IsBook =
    submit_order-IsBook (pos 100) 3 false 1 1 times fresh (new_book-IsBook (λ i. blank) (λ i. none))
      (omega arith) (omega arith)

one_bid-IsBook : IsBook one_bid
unfolding new_book
one_bid-IsBook =
    submit_order-IsBook (pos 100) 3 true 1 1 times fresh (new_book-IsBook (λ i. blank) (λ i. none))
      (omega arith) (omega arith)

match_buy_lem_example :
    let m = match_buy 101 5 2 2 8 one_ask.asks one_ask.index in
    IsOrdered BestAsk m.side
    × (traded m.events + m.incoming ≡ 5)
    × ((j : ℕ) → (m.side.levels j).total_quantity ≤ (one_ask.asks.levels j).total_quantity)
    × (0 < m.incoming
        → (j : ℕ) → j < num_book_levels
        → 0 < (m.side.levels j).total_quantity
        → 101 < (m.side.levels j).price)
    × ((j : ℕ)
        → 101 < (one_ask.asks.levels j).price
        → (m.side.levels j).total_quantity ≡ (one_ask.asks.levels j).total_quantity)
match_buy_lem_example =
    match_buy_lem 101 5 2 2 8 one_ask.asks one_ask.index (omega arith) one_ask-IsBook.asks_ordered

match_sell_lem_example :
    let m = match_sell 99 5 2 2 8 one_bid.bids one_bid.index in
    IsOrdered BestBid m.side
    × (traded m.events + m.incoming ≡ 5)
    × ((j : ℕ) → (m.side.levels j).total_quantity ≤ (one_bid.bids.levels j).total_quantity)
    × (0 < m.incoming
        → (j : ℕ) → j < num_book_levels
        → 0 < (m.side.levels j).total_quantity
        → (m.side.levels j).price < 99)
    × ((j : ℕ)
        → (one_bid.bids.levels j).price < 99
        → (m.side.levels j).total_quantity ≡ (one_bid.bids.levels j).total_quantity)
match_sell_lem_example =
    match_sell_lem 99 5 2 2 8 one_bid.bids one_bid.index (omega arith) one_bid-IsBook.bids_ordered

submit_order-answers_example :
    let quantity : ℕ = 5 in
    let r = submit_order (pos 101) quantity true 2 2 times one_ask in
    ((quantity ≡ 0) × (r ≡ refuse 2 2 invalid_volume "Invalid order size." times.request one_ask))
    ⊎ ((quantity ≢ 0)
        × ¬ InRange (pos 101)
        × (r ≡ refuse 2 2 invalid_price "Invalid price." times.request one_ask))
    ⊎ ((quantity ≢ 0) × InRange (pos 101) × Placed 2 2 quantity one_ask.order_id times r.1)
submit_order-answers_example =
    submit_order-answers (pos 101) 5 true 2 2 times one_ask one_ask-IsBook (omega arith)

-- The slot of the first bid is the first of the pool.
abbrev first_ptr : OrderPtr
first_ptr = record { in_bids = true; slot = 0 }

abbrev second_ptr : OrderPtr
second_ptr = record { in_bids = true; slot = 1 }

-- A bid of 3 at 100, and then one of 5 at 90.
abbrev two_bids : OrderBook
two_bids = (submit_order (pos 90) 5 true 1 2 times one_bid).0

two_bids_runs :
    let o = deref two_bids second_ptr in
    (find_order 1 two_bids ≡ some second_ptr)
    × (o.client_id ≡ 1)
    × (o.is_bid ≡ true)
    × (o.quantity_remaining ≡ 5)
    × (o.quantity_cumulative ≡ 0)
    × (o.quantity ≡ 5)
    × (o.price ≡ 90)
    × ((two_bids.bids.levels 89).total_quantity ≡ 5)
    × (two_bids.bids.best_price_index ≡ 99)
    × ((two_bids.bids.levels 99).total_quantity ≡ 3)
    × (o.order_id ≡ 1)
unfolding runs
two_bids_runs = (refl, refl, refl, refl, refl, refl, refl, refl, refl, refl, refl)

cancel_order-gone_example :
    let after = (cancel_order 1 3 1 9 two_bids).0 in
    ((client request now : ℕ)
      → cancel_order client request 1 now after
        ≡ refuse client request order_not_found "Order ID not found." now after)
    × ((client request quantity_new now : ℕ)
        → amend_order client request 1 quantity_new now after
          ≡ refuse client request order_not_found "Order ID not found." now after)
    × ((k order_handle : ℕ)
        → k ≢ 1
        → two_bids.index.order_id_to_handle k ≡ some order_handle
        → order_handle ≢ encode_handle (deref two_bids second_ptr)
        → find_order k after ≡ find_order k two_bids)
cancel_order-gone_example =
    let r = two_bids_runs in cancel_order-gone 1 3 1 9 two_bids second_ptr r.0 r.1 r.10

amend_order_cases_example :
    let o = deref two_bids second_ptr in
    let quantity_new : ℕ = 4 in
    let r = amend_order 1 3 1 quantity_new 9 two_bids in
    (((quantity_new < o.quantity_cumulative) ⊎ (o.quantity < quantity_new))
      × (r ≡ refuse 1 3 invalid_volume "Invalid order size." 9 two_bids))
    ⊎ ((quantity_new ≡ o.quantity) × (r ≡ (two_bids, on_order_amended 3 o.quantity o 9 ∷ [])))
    ⊎ ((o.quantity_cumulative ≤ quantity_new)
        × (quantity_new < o.quantity)
        × (r ≡ amend_found 3 second_ptr.slot o quantity_new 9 two_bids))
amend_order_cases_example =
    let r = two_bids_runs in
    amend_order_cases 1 3 1 4 9 two_bids second_ptr r.0 r.1 (omega (arith, r.3, r.4, r.5))
      (omega arith)

amend_loses-BestBid_example :
    let bids =
      (amend_order 1 3 1 (deref two_bids second_ptr).quantity_cumulative 9 two_bids).0.bids in
    ¬ BestBid bids.levels bids.best_price_index
unfolding runs
amend_loses-BestBid_example =
    let r = two_bids_runs in
    amend_loses-BestBid 1 3 1 9 two_bids second_ptr r.0 r.1 r.2 refl (omega arith) (omega arith)
      refl (λ e. omega arith) (omega arith) (omega arith)

bid_entries-occupied_down_example :
    (bid_entries one_bid
      ≡ take order_book_message_depth (occupied_down one_bid.bids.levels num_book_levels))
    × (ask_entries one_bid
        ≡ take order_book_message_depth (occupied_up one_bid.asks.levels num_book_levels 0))
bid_entries-occupied_down_example =
    bid_entries-occupied_down one_bid one_bid-IsBook.bids_ordered.best
      one_bid-IsBook.asks_ordered.best
