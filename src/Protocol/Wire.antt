-- ===== src/Protocol/Wire.antt =====
-- The bytes of a payload struct in memory, packed and little-endian, as `dispatch_` of
-- src/exchange.cpp reads them through `reinterpret_cast` on a little-endian machine.
use financial_exchange.Common.{
  ℕ, ◌+◌, ◌-◌, ◌*◌, ◌^◌, List, [], ◌∷◌, ltb, ◌==◌, if◌then◌else◌, take, drop, ℤ, pos, negsuc,
}
use financial_exchange.Types.{Side, sell, buy, Lifespan, fill_and_kill, good_for_day}
use financial_exchange.Protocol.Payloads.{PayloadInsertOrder, PayloadCancelOrder, PayloadAmendOrder}

unfoldable pub le_value : List ℕ → ℕ
le_value [] = 0
le_value (b ∷ bs) = b + 256 * le_value bs

-- The `w` bytes at an offset, as an unsigned number.
unfoldable pub read_at : ℕ → ℕ → List ℕ → ℕ
unfolding le_value
read_at offset w bytes = le_value (take w (drop offset bytes))

-- An `int64_t` by its bit pattern.
unfoldable pub signed64 : ℕ → ℤ
signed64 x = if ltb x (2 ^ 63) then pos x else negsuc (2 ^ 64 - x - 1)

-- `m->side == Side::BUY` is what is read of the side, so any other byte is a sale.
unfoldable pub side_of_byte : ℕ → Side
side_of_byte x = if x == 1 then buy else sell

unfoldable pub lifespan_of_byte : ℕ → Lifespan
lifespan_of_byte x = if x == 0 then fill_and_kill else good_for_day

unfoldable pub read_insert_order : List ℕ → PayloadInsertOrder
unfolding read_at signed64 side_of_byte lifespan_of_byte
read_insert_order bytes = record {
  client_request_id = read_at 0 4 bytes;
  side = side_of_byte (read_at 4 1 bytes);
  price = signed64 (read_at 5 8 bytes);
  quantity = read_at 13 4 bytes;
  lifespan = lifespan_of_byte (read_at 17 1 bytes);
}

unfoldable pub read_cancel_order : List ℕ → PayloadCancelOrder
unfolding read_at
read_cancel_order bytes = record {
  client_request_id = read_at 0 4 bytes;
  exchange_order_id = read_at 4 4 bytes;
}

unfoldable pub read_amend_order : List ℕ → PayloadAmendOrder
unfolding read_at
read_amend_order bytes = record {
  client_request_id = read_at 0 4 bytes;
  exchange_order_id = read_at 4 4 bytes;
  new_total_quantity = read_at 8 4 bytes;
}
