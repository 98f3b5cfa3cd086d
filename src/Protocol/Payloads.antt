-- ===== src/Protocol/Payloads.antt =====
-- The payload structs of src/protocol.hpp. A number is the value of its field; an array is the list
-- of its entries.
use financial_exchange.Common.{ℕ, ℤ, List}
use financial_exchange.Types.{Side, Lifespan}

pub record PayloadDisconnect : Type 0 where
  pub client_request_id : ℕ

pub record PayloadInsertOrder : Type 0 where
  pub client_request_id : ℕ
  pub side : Side
  pub price : ℤ
  pub quantity : ℕ
  pub lifespan : Lifespan

pub record PayloadCancelOrder : Type 0 where
  pub client_request_id : ℕ
  pub exchange_order_id : ℕ

pub record PayloadAmendOrder : Type 0 where
  pub client_request_id : ℕ
  pub exchange_order_id : ℕ
  pub new_total_quantity : ℕ

pub record PayloadSubscribe : Type 0 where
  pub client_request_id : ℕ

pub record PayloadUnsubscribe : Type 0 where
  pub client_request_id : ℕ

pub record PayloadOrderStatusRequest : Type 0 where
  pub client_request_id : ℕ
  pub exchange_order_id : ℕ

pub record PayloadError : Type 0 where
  pub client_request_id : ℕ
  pub code : ℕ
  pub message : List ℕ
  pub timestamp : ℕ

pub record PayloadConfirmOrderInserted : Type 0 where
  pub client_request_id : ℕ
  pub exchange_order_id : ℕ
  pub side : Side
  pub price : ℤ
  pub total_quantity : ℕ
  pub leaves_quantity : ℕ
  pub timestamp : ℕ

pub record PayloadConfirmOrderCancelled : Type 0 where
  pub client_request_id : ℕ
  pub exchange_order_id : ℕ
  pub leaves_quantity : ℕ
  pub price : ℤ
  pub side : Side
  pub timestamp : ℕ

pub record PayloadConfirmOrderAmended : Type 0 where
  pub client_request_id : ℕ
  pub exchange_order_id : ℕ
  pub old_total_quantity : ℕ
  pub new_total_quantity : ℕ
  pub leaves_quantity : ℕ
  pub timestamp : ℕ

pub record PayloadPartialFill : Type 0 where
  pub exchange_order_id : ℕ
  pub trade_id : ℕ
  pub last_price : ℤ
  pub last_quantity : ℕ
  pub leaves_quantity : ℕ
  pub cumulative_quantity : ℕ
  pub timestamp : ℕ

pub record PayloadOrderStatus : Type 0 where
  pub client_request_id : ℕ
  pub exchange_order_id : ℕ
  pub side : Side
  pub limit_price : ℤ
  pub last_price : ℤ
  pub total_quantity : ℕ
  pub filled_quantity : ℕ
  pub leaves_quantity : ℕ
  pub timestamp : ℕ

pub record PayloadOrderBookSnapshot : Type 0 where
  pub ask_prices : List ℤ
  pub ask_volumes : List ℕ
  pub bid_prices : List ℤ
  pub bid_volumes : List ℕ
  pub sequence_number : ℕ

pub record PayloadTradeEvent : Type 0 where
  pub sequence_number : ℕ
  pub trade_id : ℕ
  pub price : ℤ
  pub quantity : ℕ
  pub taker_side : Side
  pub timestamp : ℕ

pub record PayloadOrderInsertedEvent : Type 0 where
  pub sequence_number : ℕ
  pub order_id : ℕ
  pub side : Side
  pub price : ℤ
  pub quantity : ℕ
  pub timestamp : ℕ

pub record PayloadOrderCancelledEvent : Type 0 where
  pub sequence_number : ℕ
  pub order_id : ℕ
  pub remaining_quantity : ℕ
  pub timestamp : ℕ

pub record PayloadOrderAmendedEvent : Type 0 where
  pub sequence_number : ℕ
  pub order_id : ℕ
  pub quantity_new : ℕ
  pub quantity_old : ℕ
  pub timestamp : ℕ

pub record PayloadPriceLevelUpdate : Type 0 where
  pub sequence_number : ℕ
  pub side : Side
  pub price : ℤ
  pub total_volume : ℕ
  pub timestamp : ℕ
