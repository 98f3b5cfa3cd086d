-- ===== src/Exchange/Callbacks.antt =====
-- The callbacks of src/exchange.cpp: what the book reports becomes messages to the parties and to
-- the subscribers. `text` gives the bytes of a string.
use Prim.Native.String.{String}
use financial_exchange.Common.{ℕ, List, [], ◌∷◌, ◌++◌, if◌then◌else◌, add32, sub32, pos}
use financial_exchange.Types.{sell, buy, error_code}
use financial_exchange.Protocol.Make.{
  make_error, make_confirm_order_inserted, make_confirm_order_cancelled, make_confirm_order_amended,
  make_partial_fill, make_trade_event, make_order_inserted_event, make_order_cancelled_event,
  make_order_amended_event, make_price_level_update,
}
use financial_exchange.Book.Side.{
  Event, on_trade, on_order_inserted, on_order_cancelled, on_order_amended, on_level_update,
  on_error, side_of,
}
use financial_exchange.Exchange.Messages.{
  Message, Output, logged, Exchange, send_to, broadcast_to_subscribers, error_message,
  inserted_confirmation, cancelled_confirmation, amended_confirmation, fill_message, trade_message,
  insert_message, cancel_message, amended_message, level_message,
}

-- `sequence_number_++`
unfoldable pub next_sequence : Exchange → Exchange
next_sequence x = record x { sequence_number = add32 x.sequence_number 1 }

-- A message of the feed: to the subscribers, then to the event logger.
unfoldable pub publish : Message → Exchange → List Output
publish m x = broadcast_to_subscribers m x ++ (logged m ∷ [])

module _ (text : String → List ℕ) where
  unfoldable pub handle_event : Event → Exchange → Exchange × List Output
  handle_event
        (on_trade maker taker_client_id taker_order_id price total cumulative traded timestamp) x =
      let y = record (next_sequence x) { trade_id = add32 x.trade_id 1 } in
      let maker_fill =
        make_partial_fill maker.order_id x.trade_id (pos price) traded maker.quantity_remaining
          maker.quantity_cumulative timestamp in
      let taker_fill =
        make_partial_fill taker_order_id x.trade_id (pos price) traded (sub32 total cumulative)
          cumulative timestamp in
      let trade =
        make_trade_event x.sequence_number x.trade_id (pos price) traded
          (if maker.is_bid then sell else buy) timestamp in
      (
        y,
        send_to maker.client_id (fill_message maker_fill) y
            ++ (send_to taker_client_id (fill_message taker_fill) y
                ++ publish (trade_message trade) y),
      )
  handle_event (on_order_inserted request o timestamp) x =
      let y = next_sequence x in
      (
        y,
        send_to o.client_id
              (inserted_confirmation (
                make_confirm_order_inserted request o.order_id (side_of o.is_bid) (pos o.price)
                  o.quantity o.quantity_remaining timestamp))
              y
            ++ publish
                (insert_message (
                  make_order_inserted_event x.sequence_number o.order_id (side_of o.is_bid)
                    (pos o.price) o.quantity_remaining timestamp))
                y,
      )
  handle_event (on_order_cancelled request o timestamp) x =
      let y = next_sequence x in
      (
        y,
        send_to o.client_id
              (cancelled_confirmation (
                make_confirm_order_cancelled request o.order_id o.quantity_remaining (pos o.price)
                  (side_of o.is_bid) timestamp))
              y
            ++ publish
                (cancel_message (
                  make_order_cancelled_event x.sequence_number o.order_id o.quantity_remaining
                    timestamp))
                y,
      )
  handle_event (on_order_amended request quantity_old o timestamp) x =
      let y = next_sequence x in
      (
        y,
        send_to o.client_id
              (amended_confirmation (
                make_confirm_order_amended request o.order_id quantity_old o.quantity
                  o.quantity_remaining timestamp))
              y
            ++ publish
                (amended_message (
                  make_order_amended_event x.sequence_number o.order_id o.quantity quantity_old
                    timestamp))
                y,
      )
  handle_event (on_level_update side level timestamp) x =
      let y = next_sequence x in
      (
        y,
        publish
            (level_message (
              make_price_level_update x.sequence_number side (pos level.price) level.total_quantity
                timestamp))
            y,
      )
  handle_event (on_error client_id request code message timestamp) x = (
    x,
    send_to client_id
        (error_message (make_error request (error_code code) (text message) timestamp)) x,
  )

  -- The calls that the book makes, one after the other.
  unfoldable pub handle_events : List Event → Exchange → Exchange × List Output
  handle_events [] x = (x, [])
  handle_events (e ∷ es) x =
      let first = handle_event e x in
      let rest = handle_events es first.0 in (rest.0, first.1 ++ rest.1)
