-- ===== src/Protocol/Make.antt =====
-- The `make_` functions of src/protocol.hpp.
use financial_exchange.Common.{ℕ, ℤ, ◌-◌, List, ◌++◌, take, length, replicate, min}
use financial_exchange.Types.{Side, Lifespan, error_text_len}
use financial_exchange.Protocol.Payloads.{
  PayloadAmendOrder, PayloadCancelOrder, PayloadConfirmOrderAmended, PayloadConfirmOrderCancelled,
  PayloadConfirmOrderInserted, PayloadDisconnect, PayloadError, PayloadInsertOrder,
  PayloadOrderAmendedEvent, PayloadOrderBookSnapshot, PayloadOrderCancelledEvent,
  PayloadOrderInsertedEvent, PayloadOrderStatus, PayloadOrderStatusRequest, PayloadPartialFill,
  PayloadPriceLevelUpdate, PayloadSubscribe, PayloadTradeEvent, PayloadUnsubscribe,
}

unfoldable pub make_disconnect : (client_request_id : ℕ) → PayloadDisconnect
make_disconnect client_request_id = record { client_request_id = client_request_id }

unfoldable pub make_subscribe : (client_request_id : ℕ) → PayloadSubscribe
make_subscribe client_request_id = record { client_request_id = client_request_id }

unfoldable pub make_unsubscribe : (client_request_id : ℕ) → PayloadUnsubscribe
make_unsubscribe client_request_id = record { client_request_id = client_request_id }

unfoldable pub make_insert_order :
    (client_request_id : ℕ) (side : Side) (price : ℤ) (quantity : ℕ) (lifespan : Lifespan)
    → PayloadInsertOrder
make_insert_order client_request_id side price quantity lifespan = record {
  client_request_id = client_request_id;
  side = side;
  price = price;
  quantity = quantity;
  lifespan = lifespan;
}

unfoldable pub make_cancel_order : (client_request_id exchange_order_id : ℕ) → PayloadCancelOrder
make_cancel_order client_request_id exchange_order_id = record {
  client_request_id = client_request_id;
  exchange_order_id = exchange_order_id;
}

unfoldable pub make_amend_order :
    (client_request_id exchange_order_id new_total_quantity : ℕ) → PayloadAmendOrder
make_amend_order client_request_id exchange_order_id new_total_quantity = record {
  client_request_id = client_request_id;
  exchange_order_id = exchange_order_id;
  new_total_quantity = new_total_quantity;
}

unfoldable pub make_order_status_request :
    (client_request_id exchange_order_id : ℕ) → PayloadOrderStatusRequest
make_order_status_request client_request_id exchange_order_id = record {
  client_request_id = client_request_id;
  exchange_order_id = exchange_order_id;
}

unfoldable pub make_confirm_order_inserted :
    (client_request_id exchange_order_id : ℕ) (side : Side) (price : ℤ)
    (total_quantity leaves_quantity timestamp : ℕ)
    → PayloadConfirmOrderInserted
make_confirm_order_inserted client_request_id exchange_order_id side price total_quantity
      leaves_quantity timestamp =
    record {
      client_request_id = client_request_id;
      exchange_order_id = exchange_order_id;
      side = side;
      price = price;
      total_quantity = total_quantity;
      leaves_quantity = leaves_quantity;
      timestamp = timestamp;
    }

unfoldable pub make_confirm_order_cancelled :
    (client_request_id exchange_order_id leaves_quantity : ℕ) (price : ℤ) (side : Side)
    (timestamp : ℕ)
    → PayloadConfirmOrderCancelled
make_confirm_order_cancelled client_request_id exchange_order_id leaves_quantity price side
      timestamp =
    record {
      client_request_id = client_request_id;
      exchange_order_id = exchange_order_id;
      leaves_quantity = leaves_quantity;
      price = price;
      side = side;
      timestamp = timestamp;
    }

unfoldable pub make_confirm_order_amended :
    (client_request_id exchange_order_id old_total_quantity new_total_quantity leaves_quantity
      timestamp : ℕ)
    → PayloadConfirmOrderAmended
make_confirm_order_amended client_request_id exchange_order_id old_total_quantity new_total_quantity
      leaves_quantity timestamp =
    record {
      client_request_id = client_request_id;
      exchange_order_id = exchange_order_id;
      old_total_quantity = old_total_quantity;
      new_total_quantity = new_total_quantity;
      leaves_quantity = leaves_quantity;
      timestamp = timestamp;
    }

unfoldable pub make_partial_fill :
    (exchange_order_id trade_id : ℕ) (last_price : ℤ)
    (last_quantity leaves_quantity cumulative_quantity timestamp : ℕ)
    → PayloadPartialFill
make_partial_fill exchange_order_id trade_id last_price last_quantity leaves_quantity
      cumulative_quantity timestamp =
    record {
      exchange_order_id = exchange_order_id;
      trade_id = trade_id;
      last_price = last_price;
      last_quantity = last_quantity;
      leaves_quantity = leaves_quantity;
      cumulative_quantity = cumulative_quantity;
      timestamp = timestamp;
    }

unfoldable pub make_order_status :
    (client_request_id exchange_order_id : ℕ) (side : Side)
    (total_quantity filled_quantity leaves_quantity : ℕ) (limit_price last_price : ℤ)
    (timestamp : ℕ)
    → PayloadOrderStatus
make_order_status client_request_id exchange_order_id side total_quantity filled_quantity
      leaves_quantity limit_price last_price timestamp =
    record {
      client_request_id = client_request_id;
      exchange_order_id = exchange_order_id;
      side = side;
      limit_price = limit_price;
      last_price = last_price;
      total_quantity = total_quantity;
      filled_quantity = filled_quantity;
      leaves_quantity = leaves_quantity;
      timestamp = timestamp;
    }

unfoldable pub make_order_book_snapshot :
    (ask_prices : List ℤ) (ask_volumes : List ℕ) (bid_prices : List ℤ) (bid_volumes : List ℕ)
    (sequence_number : ℕ)
    → PayloadOrderBookSnapshot
make_order_book_snapshot ask_prices ask_volumes bid_prices bid_volumes sequence_number = record {
  ask_prices = ask_prices;
  ask_volumes = ask_volumes;
  bid_prices = bid_prices;
  bid_volumes = bid_volumes;
  sequence_number = sequence_number;
}

unfoldable pub make_trade_event :
    (sequence_number trade_id : ℕ) (price : ℤ) (quantity : ℕ) (taker_side : Side) (timestamp : ℕ)
    → PayloadTradeEvent
make_trade_event sequence_number trade_id price quantity taker_side timestamp = record {
  sequence_number = sequence_number;
  trade_id = trade_id;
  price = price;
  quantity = quantity;
  taker_side = taker_side;
  timestamp = timestamp;
}

unfoldable pub make_order_inserted_event :
    (sequence_number order_id : ℕ) (side : Side) (price : ℤ) (quantity timestamp : ℕ)
    → PayloadOrderInsertedEvent
make_order_inserted_event sequence_number order_id side price quantity timestamp = record {
  sequence_number = sequence_number;
  order_id = order_id;
  side = side;
  price = price;
  quantity = quantity;
  timestamp = timestamp;
}

unfoldable pub make_order_cancelled_event :
    (sequence_number order_id remaining_quantity timestamp : ℕ) → PayloadOrderCancelledEvent
make_order_cancelled_event sequence_number order_id remaining_quantity timestamp = record {
  sequence_number = sequence_number;
  order_id = order_id;
  remaining_quantity = remaining_quantity;
  timestamp = timestamp;
}

unfoldable pub make_order_amended_event :
    (sequence_number order_id quantity_new quantity_old timestamp : ℕ) → PayloadOrderAmendedEvent
make_order_amended_event sequence_number order_id quantity_new quantity_old timestamp = record {
  sequence_number = sequence_number;
  order_id = order_id;
  quantity_new = quantity_new;
  quantity_old = quantity_old;
  timestamp = timestamp;
}

unfoldable pub make_price_level_update :
    (sequence_number : ℕ) (side : Side) (price : ℤ) (total_volume timestamp : ℕ)
    → PayloadPriceLevelUpdate
make_price_level_update sequence_number side price total_volume timestamp = record {
  sequence_number = sequence_number;
  side = side;
  price = price;
  total_volume = total_volume;
  timestamp = timestamp;
}

-- The message is cut to `ERROR_TEXT_LEN - 1` bytes; the zero byte and the zeroed rest follow.
unfoldable pub error_text : List ℕ → List ℕ
error_text message =
    let n = min (error_text_len - 1) (length message) in
    take n message ++ replicate (error_text_len - n) 0

unfoldable pub make_error :
    (client_request_id code : ℕ) (message : List ℕ) (timestamp : ℕ) → PayloadError
unfolding error_text
make_error client_request_id code message timestamp = record {
  client_request_id = client_request_id;
  code = code;
  message = error_text message;
  timestamp = timestamp;
}
