-- ===== src/Connection/Frame.antt =====
-- The messages of the queues and their frames: type, length with its high byte first, payload.
use financial_exchange.Common.{
  ℕ, ◌+◌, ◌-◌, ◌*◌, ◌/◌, ◌%◌, Option, none, some, List, [], ◌∷◌, ◌++◌, length, take, drop,
  replicate, ltb, if◌then◌else◌,
}
use financial_exchange.Protocol.MessageType.{max_payload_size_buffer}

pub record InboundMessage : Type 0 where
  pub connection_id : ℕ
  pub message_type : ℕ
  pub payload_size : ℕ
  pub payload : List ℕ

pub record OutboundMessage : Type 0 where
  pub connection_id : ℕ
  pub message_type : ℕ
  pub payload_size : ℕ
  pub payload : List ℕ

abbrev pub wire_header_size : ℕ
wire_header_size = 3

abbrev pub inbound_q_cap : ℕ
inbound_q_cap = 16_384

abbrev pub outbound_q_cap : ℕ
outbound_q_cap = 65_536

-- The array of a message: `msg{}` is all zeros, and `memcpy` writes the payload over its front.
unfoldable pub payload_array : List ℕ → List ℕ
payload_array payload = payload ++ replicate (max_payload_size_buffer - length payload) 0

-- `write_u16_be`: the two bytes that it writes.
unfoldable pub write_u16_be : ℕ → List ℕ
write_u16_be v = (v / 256 % 256) ∷ (v % 256) ∷ []

unfoldable pub read_u16_be : ℕ → ℕ → ℕ
read_u16_be high low = high * 256 + low

-- A frame with the `size` bytes of a payload.
unfoldable pub frame : ℕ → ℕ → List ℕ → List ℕ
unfolding write_u16_be
frame message_type size payload = message_type ∷ write_u16_be size ++ take size payload

-- The first frame of the bytes, if it is there whole: type, length, payload, and the bytes behind.
unfoldable pub next_frame : List ℕ → Option (ℕ × ℕ × List ℕ × List ℕ)
unfolding read_u16_be
next_frame (message_type ∷ high ∷ low ∷ rest) =
    let size = read_u16_be high low in
    if ltb (length rest) size
    then none
    else some (message_type, size, take size rest, drop size rest)
next_frame _ = none
