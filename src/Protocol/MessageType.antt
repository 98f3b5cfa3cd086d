-- ===== src/Protocol/MessageType.antt =====
-- `MessageType` of src/protocol.hpp, its byte values, and the payload size of each type.
use financial_exchange.Common.{ℕ, Option, none, some, List, [], ◌∷◌, ◌==◌, if◌then◌else◌, max}
use financial_exchange.Protocol.Layout.{
  sum, layout_amend_order, layout_cancel_order, layout_confirm_order_amended,
  layout_confirm_order_cancelled, layout_confirm_order_inserted, layout_disconnect, layout_error,
  layout_insert_order, layout_order_amended_event, layout_order_book_snapshot,
  layout_order_cancelled_event, layout_order_inserted_event, layout_order_status,
  layout_order_status_request, layout_partial_fill, layout_price_level_update, layout_subscribe,
  layout_trade_event, layout_unsubscribe,
}

pub data MessageType : Type 0 where
  connect disconnect insert_order : MessageType
  cancel_order amend_order subscribe : MessageType
  unsubscribe order_status_request confirm_connected : MessageType
  confirm_order_inserted confirm_order_cancelled confirm_order_amended : MessageType
  partial_fill_order order_status error_msg : MessageType
  order_book_snapshot trade_event order_inserted_event : MessageType
  order_cancelled_event order_amended_event price_level_update : MessageType

unfoldable pub code : MessageType → ℕ
code connect = 1
code disconnect = 2
code insert_order = 3
code cancel_order = 4
code amend_order = 5
code subscribe = 6
code unsubscribe = 7
code order_status_request = 8
code confirm_connected = 11
code confirm_order_inserted = 12
code confirm_order_cancelled = 13
code confirm_order_amended = 14
code partial_fill_order = 15
code order_status = 16
code error_msg = 17
code order_book_snapshot = 21
code trade_event = 23
code order_inserted_event = 24
code order_cancelled_event = 25
code order_amended_event = 26
code price_level_update = 27

-- A byte as a `MessageType`; `none` is a value that the enumeration does not name.
unfoldable pub of_code : ℕ → Option MessageType
of_code c =
    if c == 1
    then some connect
    else if c == 2
    then some disconnect
    else if c == 3
    then some insert_order
    else if c == 4
    then some cancel_order
    else if c == 5
    then some amend_order
    else if c == 6
    then some subscribe
    else if c == 7
    then some unsubscribe
    else if c == 8
    then some order_status_request
    else if c == 11
    then some confirm_connected
    else if c == 12
    then some confirm_order_inserted
    else if c == 13
    then some confirm_order_cancelled
    else if c == 14
    then some confirm_order_amended
    else if c == 15
    then some partial_fill_order
    else if c == 16
    then some order_status
    else if c == 17
    then some error_msg
    else if c == 21
    then some order_book_snapshot
    else if c == 23
    then some trade_event
    else if c == 24
    then some order_inserted_event
    else if c == 25
    then some order_cancelled_event
    else if c == 26
    then some order_amended_event
    else if c == 27
    then some price_level_update
    else none

unfoldable pub payload_size_for_type : MessageType → ℕ
unfolding sum
payload_size_for_type disconnect = sum layout_disconnect
payload_size_for_type insert_order = sum layout_insert_order
payload_size_for_type cancel_order = sum layout_cancel_order
payload_size_for_type amend_order = sum layout_amend_order
payload_size_for_type subscribe = sum layout_subscribe
payload_size_for_type unsubscribe = sum layout_unsubscribe
payload_size_for_type order_status_request = sum layout_order_status_request
payload_size_for_type error_msg = sum layout_error
payload_size_for_type confirm_order_inserted = sum layout_confirm_order_inserted
payload_size_for_type confirm_order_cancelled = sum layout_confirm_order_cancelled
payload_size_for_type confirm_order_amended = sum layout_confirm_order_amended
payload_size_for_type partial_fill_order = sum layout_partial_fill
payload_size_for_type order_status = sum layout_order_status
payload_size_for_type order_book_snapshot = sum layout_order_book_snapshot
payload_size_for_type trade_event = sum layout_trade_event
payload_size_for_type order_inserted_event = sum layout_order_inserted_event
payload_size_for_type order_cancelled_event = sum layout_order_cancelled_event
payload_size_for_type order_amended_event = sum layout_order_amended_event
payload_size_for_type price_level_update = sum layout_price_level_update
payload_size_for_type connect = 0
payload_size_for_type confirm_connected = 0

unfoldable pub largest : List ℕ → ℕ
largest [] = 0
largest (s ∷ ss) = max s (largest ss)

unfoldable pub max_payload_size : ℕ
unfolding largest sum
max_payload_size = largest (
    sum layout_disconnect
    ∷ sum layout_insert_order
    ∷ sum layout_cancel_order
    ∷ sum layout_amend_order
    ∷ sum layout_subscribe
    ∷ sum layout_unsubscribe
    ∷ sum layout_order_status_request
    ∷ sum layout_error
    ∷ sum layout_confirm_order_inserted
    ∷ sum layout_confirm_order_cancelled
    ∷ sum layout_confirm_order_amended
    ∷ sum layout_partial_fill
    ∷ sum layout_order_status
    ∷ sum layout_order_book_snapshot
    ∷ sum layout_trade_event
    ∷ sum layout_order_inserted_event
    ∷ sum layout_order_cancelled_event
    ∷ sum layout_order_amended_event
    ∷ sum layout_price_level_update
    ∷ [])

unfoldable pub max_payload_size_buffer : ℕ
unfolding largest sum
max_payload_size_buffer = largest (
    sum layout_disconnect
    ∷ sum layout_insert_order
    ∷ sum layout_cancel_order
    ∷ sum layout_amend_order
    ∷ sum layout_subscribe
    ∷ sum layout_unsubscribe
    ∷ sum layout_error
    ∷ sum layout_confirm_order_inserted
    ∷ sum layout_confirm_order_cancelled
    ∷ sum layout_confirm_order_amended
    ∷ sum layout_partial_fill
    ∷ sum layout_trade_event
    ∷ sum layout_order_inserted_event
    ∷ sum layout_order_cancelled_event
    ∷ sum layout_order_amended_event
    ∷ sum layout_price_level_update
    ∷ [])
