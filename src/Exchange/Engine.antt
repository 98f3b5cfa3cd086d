-- ===== src/Exchange/Engine.antt =====
-- `dispatch_` of src/exchange.cpp, subscriptions and the removal of a connection. The task
-- `posted_removal` that `remove_connection_` hands to the acceptor's strand runs `run_remove_client` of
-- Server.
use Prim.Native.String.{String}
use financial_exchange.Common.{
  ℕ, Bool, true, false, none, some, List, [], ◌∷◌, ◌++◌, ltb, ◌==◌, if◌then◌else◌, update, map, pos,
}
use financial_exchange.Types.{Side, sell, buy}
use financial_exchange.Protocol.MessageType.{
  MessageType, of_code, insert_order, cancel_order, amend_order, subscribe, unsubscribe, disconnect,
}
use financial_exchange.Protocol.Wire.{read_insert_order, read_cancel_order, read_amend_order}
use financial_exchange.Protocol.Make.{make_order_book_snapshot}
use financial_exchange.Book.Side.{Event}
use financial_exchange.Book.Api as Api
use financial_exchange.Book.Api.{OrderBook, Times, submit_order}
use financial_exchange.Book.Snapshot.{build_snapshot}
use financial_exchange.Exchange.Messages.{
  Output, sent, posted_removal, Exchange, max_connections, conn_ptr, snapshot_message,
}
use financial_exchange.Exchange.Callbacks.{handle_events}
use financial_exchange.Connection.Frame.{InboundMessage}

-- The new subscriber's snapshot bears the number that the next message of the feed will bear.
unfoldable pub subscribe_market_feed : ℕ → Exchange → Exchange × List Output
subscribe_market_feed connection_id x =
    let y = record x {
      market_data_subscribers = x.market_data_subscribers ++ (connection_id ∷ []);
    } in
    let s = build_snapshot x.order_book in
    let snapshot =
      make_order_book_snapshot (map pos s.ask_prices) s.ask_volumes (map pos s.bid_prices)
        s.bid_volumes x.sequence_number in
    (
      y,
      if conn_ptr connection_id y then sent connection_id (snapshot_message snapshot) ∷ [] else [],
    )

-- A list without its last element, and that element.
unfoldable pub split_last : ℕ → List ℕ → List ℕ × ℕ
split_last x [] = ([], x)
split_last x (y ∷ ys) = let r = split_last y ys in (x ∷ r.0, r.1)

-- `std::find`, the swap with the last element, and `pop_back`.
unfoldable pub swap_out : ℕ → List ℕ → List ℕ
unfolding split_last
swap_out id [] = []
swap_out id (x ∷ []) = if x == id then [] else x ∷ []
swap_out id (x ∷ y ∷ ys) =
    let r = split_last y ys in
    let rest = swap_out id (y ∷ ys) in if x == id then r.1 ∷ r.0 else x ∷ rest

unfoldable pub unsubscribe_market_feed : ℕ → Exchange → Exchange
unsubscribe_market_feed connection_id x = record x {
  market_data_subscribers = swap_out connection_id x.market_data_subscribers;
}

-- The book-keeping of the engine, and the task for the acceptor's strand.
unfoldable pub remove_connection : ℕ → Exchange → Exchange × List Output
remove_connection connection_id x =
    let y = unsubscribe_market_feed connection_id x in
    (
      if ltb connection_id max_connections
          then record y { connected = update y.connected connection_id false }
          else y,
      posted_removal connection_id ∷ [],
    )

-- `m->side == Side::BUY`
abbrev pub is_buy : Side → Bool
is_buy buy = true
is_buy sell = false

module _ (text : String → List ℕ) where
  -- The book after a request, and then the callbacks that the request made.
  unfoldable pub run_request : OrderBook × List Event → Exchange → Exchange × List Output
  run_request r x = handle_events text r.1 (record x { order_book = r.0 })

  unfoldable pub dispatch_typed :
      MessageType → InboundMessage → Times → Exchange → Exchange × List Output
  dispatch_typed insert_order msg now x =
      let m = read_insert_order msg.payload in
      run_request
        (submit_order m.price m.quantity (is_buy m.side) msg.connection_id m.client_request_id now
          x.order_book)
        x
  dispatch_typed cancel_order msg now x =
      let m = read_cancel_order msg.payload in
      run_request
        (Api.cancel_order msg.connection_id m.client_request_id m.exchange_order_id now.request
          x.order_book)
        x
  dispatch_typed amend_order msg now x =
      let m = read_amend_order msg.payload in
      run_request
        (Api.amend_order msg.connection_id m.client_request_id m.exchange_order_id
          m.new_total_quantity now.request x.order_book)
        x
  dispatch_typed subscribe msg now x = subscribe_market_feed msg.connection_id x
  dispatch_typed unsubscribe msg now x = (unsubscribe_market_feed msg.connection_id x, [])
  dispatch_typed disconnect msg now x = remove_connection msg.connection_id x
  dispatch_typed _ msg now x = (x, [])

  unfoldable pub dispatch : InboundMessage → Times → Exchange → Exchange × List Output
  unfolding dispatch_typed
  dispatch msg now x = elim (of_code msg.message_type) [
    | none ↦ (x, [])
    | some t ↦ dispatch_typed t msg now x
  ]
