-- ===== src/Protocol/Tests.antt =====
-- Concrete messages: the theorems on the wire format at inputs that meet their hypotheses.
use financial_exchange.Common.{
  ℕ, ◌+◌, ◌≡◌, ◌≢◌, ◌⊎◌, ◌≤◌, refl, none, some, List, [], ◌∷◌, ◌++◌, arith, length, drop, replicate,
}
use financial_exchange.Protocol.MessageType.{
  MessageType, payload_size_for_type, subscribe, price_level_update, order_status,
  order_book_snapshot, max_payload_size, max_payload_size_buffer,
}
use financial_exchange.Protocol.Buffer.{
  write_message_to_buffer, parse_message, parse_message_full, parse-write, parse_message_full_cases,
}
use financial_exchange.Protocol.Sizes.{payload_size_bounds}

abbrev buf : List ℕ
buf = replicate 8 0

abbrev request : List ℕ
request = 7 ∷ 1 ∷ 0 ∷ 0 ∷ []

parse-write_example :
    ((write_message_to_buffer buf subscribe request).1 ≡ 1 + payload_size_for_type subscribe)
    × (length (write_message_to_buffer buf subscribe request).0 ≡ length buf)
    × (parse_message (write_message_to_buffer buf subscribe request).0
        ≡ some (subscribe, request ++ drop (1 + payload_size_for_type subscribe) buf))
unfolding payload_size_for_type
parse-write_example = parse-write buf subscribe request refl (omega arith) (omega arith)

-- A price level update with all bytes of its payload 0.
abbrev update_message : List ℕ
update_message = 27 ∷ replicate 21 0

parse_message_full_cases_example :
    ((parse_message update_message ≡ none) × (parse_message_full update_message ≡ none))
    ⊎ ((t : MessageType) × (payload : List ℕ) × (parse_message update_message ≡ some (t, payload))
        × (((t ≡ price_level_update) × (parse_message_full update_message ≡ none))
            ⊎ ((t ≢ price_level_update) × (parse_message_full update_message ≡ some (t, payload)))))
parse_message_full_cases_example = parse_message_full_cases update_message

payload_size_bounds_example :
    (payload_size_for_type order_status ≤ max_payload_size)
    × (order_status ≢ order_book_snapshot
        → payload_size_for_type order_status ≤ max_payload_size_buffer)
payload_size_bounds_example = payload_size_bounds order_status
