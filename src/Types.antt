-- ===== src/Types.antt =====
-- src/types.hpp: constants and enumerations.
use financial_exchange.Common.{ℕ}

abbrev pub max_orders : ℕ
max_orders = 100_000

abbrev pub minimum_bid : ℕ
minimum_bid = 1

abbrev pub maximum_ask : ℕ
maximum_ask = 10_000

abbrev pub num_book_levels : ℕ
num_book_levels = 10_000

abbrev pub order_book_message_depth : ℕ
order_book_message_depth = 10

abbrev pub error_text_len : ℕ
error_text_len = 32

pub data Lifespan : Type 0 where
  fill_and_kill good_for_day : Lifespan

pub data Side : Type 0 where
  sell buy : Side

pub data ErrorType : Type 0 where
  order_book_full invalid_volume order_not_found unauthorised invalid_price : ErrorType

unfoldable pub error_code : ErrorType → ℕ
error_code order_book_full = 1
error_code invalid_volume = 2
error_code order_not_found = 3
error_code unauthorised = 4
error_code invalid_price = 5
