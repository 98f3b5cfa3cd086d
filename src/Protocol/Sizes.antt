-- ===== src/Protocol/Sizes.antt =====
-- The size constants of src/protocol.hpp against `payload_size_for_type`.
use financial_exchange.Common.{leb→le, ◌≤◌, ◌≡◌, ◌≢◌, refl, true, leb}
use financial_exchange.Protocol.MessageType.{
  MessageType, payload_size_for_type, max_payload_size, max_payload_size_buffer,
  order_book_snapshot, connect,
}

fits : (t : MessageType) → leb (payload_size_for_type t) max_payload_size ≡ true
unfolding payload_size_for_type max_payload_size
fits connect = refl
fits _ = refl

fits_buffer :
    (t : MessageType)
    → t ≢ order_book_snapshot
    → leb (payload_size_for_type t) max_payload_size_buffer ≡ true
unfolding payload_size_for_type max_payload_size_buffer
fits_buffer order_book_snapshot h = absurd (h refl)
fits_buffer _ h = refl

-- Every payload fits in `MAX_PAYLOAD_SIZE`, and every payload but a snapshot fits in
-- `MAX_PAYLOAD_SIZE_BUFFER`, also those that its list leaves out.
pub payload_size_bounds :
    (t : MessageType)
    → (payload_size_for_type t ≤ max_payload_size)
      × (t ≢ order_book_snapshot → payload_size_for_type t ≤ max_payload_size_buffer)
payload_size_bounds t = (leb→le _ _ (fits t), λ h. leb→le _ _ (fits_buffer t h))
