-- ===== src/Exchange/Messages.antt =====
-- What the exchange sends and logs, and its state: src/exchange.hpp and the senders of
-- src/exchange.cpp.
use financial_exchange.Common.{ℕ, Bool, ◌&&◌, List, [], ◌∷◌, ◌++◌, ltb, if◌then◌else◌}
use financial_exchange.Protocol.Payloads.{
  PayloadError, PayloadConfirmOrderInserted, PayloadConfirmOrderCancelled,
  PayloadConfirmOrderAmended, PayloadPartialFill, PayloadOrderBookSnapshot, PayloadTradeEvent,
  PayloadOrderInsertedEvent, PayloadOrderCancelledEvent, PayloadOrderAmendedEvent,
  PayloadPriceLevelUpdate,
}
use financial_exchange.Book.Api.{OrderBook}

abbrev pub max_connections : ℕ
max_connections = 32

-- A message type with its payload.
pub data Message : Type 0 where
  error_message : PayloadError → Message
  inserted_confirmation : PayloadConfirmOrderInserted → Message
  cancelled_confirmation : PayloadConfirmOrderCancelled → Message
  amended_confirmation : PayloadConfirmOrderAmended → Message
  fill_message : PayloadPartialFill → Message
  snapshot_message : PayloadOrderBookSnapshot → Message
  trade_message : PayloadTradeEvent → Message
  insert_message : PayloadOrderInsertedEvent → Message
  cancel_message : PayloadOrderCancelledEvent → Message
  amended_message : PayloadOrderAmendedEvent → Message
  level_message : PayloadPriceLevelUpdate → Message

-- A message handed to a connection or to the event logger, or the task that `remove_connection_`
-- hands to the acceptor's strand.
pub data Output : Type 0 where
  sent : ℕ → Message → Output
  logged : Message → Output
  posted_removal : ℕ → Output

-- `connected` says for which ids `conn_by_id_` holds a connection.
pub record Exchange : Type 0 where
  pub order_book : OrderBook
  pub connected : ℕ → Bool
  pub market_data_subscribers : List ℕ
  pub trade_id : ℕ
  pub sequence_number : ℕ

-- Whether `conn_ptr_` finds a connection.
unfoldable pub conn_ptr : ℕ → Exchange → Bool
conn_ptr id x = ltb id max_connections && x.connected id

unfoldable pub send_to : ℕ → Message → Exchange → List Output
send_to client_id m x = if conn_ptr client_id x then sent client_id m ∷ [] else []

abbrev pub broadcast : List ℕ → Message → Exchange → List Output
broadcast [] m x = []
broadcast (cid ∷ cids) m x = send_to cid m x ++ broadcast cids m x

unfoldable pub broadcast_to_subscribers : Message → Exchange → List Output
broadcast_to_subscribers m x = broadcast x.market_data_subscribers m x

-- The messages of the feed that went to the event logger.
abbrev pub log_of : List Output → List Message
log_of [] = []
log_of (sent c m ∷ out) = log_of out
log_of (logged m ∷ out) = m ∷ log_of out
log_of (posted_removal id ∷ out) = log_of out
