-- ===== src/Protocol/Layout.antt =====
-- `sizeof` of the packed payload structs of src/protocol.hpp: the widths of the fields, in order.
use financial_exchange.Common.{ℕ, ◌+◌, ◌*◌, List, [], ◌∷◌}
use financial_exchange.Types.{error_text_len, order_book_message_depth}

unfoldable pub sum : List ℕ → ℕ
sum [] = 0
sum (w ∷ ws) = w + sum ws

abbrev pub layout_disconnect : List ℕ
layout_disconnect = 4 ∷ []

abbrev pub layout_insert_order : List ℕ
layout_insert_order = 4 ∷ 1 ∷ 8 ∷ 4 ∷ 1 ∷ []

abbrev pub layout_cancel_order : List ℕ
layout_cancel_order = 4 ∷ 4 ∷ []

abbrev pub layout_amend_order : List ℕ
layout_amend_order = 4 ∷ 4 ∷ 4 ∷ []

abbrev pub layout_subscribe : List ℕ
layout_subscribe = 4 ∷ []

abbrev pub layout_unsubscribe : List ℕ
layout_unsubscribe = 4 ∷ []

abbrev pub layout_order_status_request : List ℕ
layout_order_status_request = 4 ∷ 4 ∷ []

abbrev pub layout_error : List ℕ
layout_error = 4 ∷ 2 ∷ error_text_len ∷ 8 ∷ []

abbrev pub layout_confirm_order_inserted : List ℕ
layout_confirm_order_inserted = 4 ∷ 4 ∷ 1 ∷ 8 ∷ 4 ∷ 4 ∷ 8 ∷ []

abbrev pub layout_confirm_order_cancelled : List ℕ
layout_confirm_order_cancelled = 4 ∷ 4 ∷ 4 ∷ 8 ∷ 1 ∷ 8 ∷ []

abbrev pub layout_confirm_order_amended : List ℕ
layout_confirm_order_amended = 4 ∷ 4 ∷ 4 ∷ 4 ∷ 4 ∷ 8 ∷ []

abbrev pub layout_partial_fill : List ℕ
layout_partial_fill = 4 ∷ 4 ∷ 8 ∷ 4 ∷ 4 ∷ 4 ∷ 8 ∷ []

abbrev pub layout_order_status : List ℕ
layout_order_status = 4 ∷ 4 ∷ 1 ∷ 8 ∷ 8 ∷ 4 ∷ 4 ∷ 4 ∷ 8 ∷ []

abbrev pub layout_order_book_snapshot : List ℕ
layout_order_book_snapshot =
    (order_book_message_depth * 8)
    ∷ (order_book_message_depth * 4)
    ∷ (order_book_message_depth * 8)
    ∷ (order_book_message_depth * 4)
    ∷ 4
    ∷ []

abbrev pub layout_trade_event : List ℕ
layout_trade_event = 4 ∷ 4 ∷ 8 ∷ 4 ∷ 1 ∷ 8 ∷ []

abbrev pub layout_order_inserted_event : List ℕ
layout_order_inserted_event = 4 ∷ 4 ∷ 1 ∷ 8 ∷ 4 ∷ 8 ∷ []

abbrev pub layout_order_cancelled_event : List ℕ
layout_order_cancelled_event = 4 ∷ 4 ∷ 4 ∷ 8 ∷ []

abbrev pub layout_order_amended_event : List ℕ
layout_order_amended_event = 4 ∷ 4 ∷ 4 ∷ 4 ∷ 8 ∷ []

abbrev pub layout_price_level_update : List ℕ
layout_price_level_update = 4 ∷ 1 ∷ 8 ∷ 4 ∷ 8 ∷ []
