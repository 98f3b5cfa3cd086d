-- ===== src/Connection/Read.antt =====
-- Reading: `handle_read_` and `parse_accumulator_` of src/connectivity.cpp.
use financial_exchange.Common.{
  ℕ, zero, suc, ◌+◌, ◌*◌, ◌^◌, ◌%◌, Bool, true, false, Option, none, some, List, ◌++◌, length, ltb,
  leb, if◌then◌else◌,
}
use financial_exchange.Protocol.MessageType.{max_payload_size, max_payload_size_buffer}
use financial_exchange.Spsc.Queue.{try_push}
use financial_exchange.Connection.Frame.{InboundMessage, next_frame, payload_array, inbound_q_cap}
use financial_exchange.Connection.State.{
  Connection, perform, start_read, call_large_message, notify_disconnect_once, notify_inbound_ready,
}

unfoldable pub inbound_message : ℕ → ℕ → ℕ → List ℕ → InboundMessage
unfolding payload_array
inbound_message id message_type size payload = record {
  connection_id = id;
  message_type = message_type;
  payload_size = size;
  payload = payload_array payload;
}

-- One whole frame; the Boolean says whether the loop goes on.
unfoldable pub handle_frame : ℕ → ℕ → List ℕ → Connection → Connection × Bool
unfolding inbound_message
handle_frame message_type size payload c =
    let pushed =
      try_push inbound_q_cap (inbound_message c.id message_type size payload) c.inbound_to_engine in
    if ltb max_payload_size size
    then (notify_disconnect_once c, false)
    else if leb size max_payload_size_buffer
    then (if pushed.1
        then (notify_inbound_ready (record c { inbound_to_engine = pushed.0 }), true)
        else (notify_disconnect_once c, false))
    else if c.has_large_message
    then (perform (call_large_message message_type payload) c, true)
    else (c, true)

-- The loop, on the bytes from `offset` on. It leaves the bytes that it did not use, or `none` where it
-- returned early.
unfoldable pub parse_loop : ℕ → List ℕ → Connection → Connection × Option (List ℕ)
parse_loop zero bytes c = (c, some bytes)
parse_loop (suc rounds) bytes c = elim (next_frame bytes) [
  | none ↦ (c, some bytes)
  | some (message_type, size, payload, rest) ↦
      let handled = handle_frame message_type size payload c in
      elim (handled.1) [ true ↦ parse_loop rounds rest handled.0 | false ↦ (handled.0, none) ]
]

-- Every frame has three bytes at least, so that there are fewer rounds than bytes.
unfoldable pub parse_accumulator : Connection → Connection
unfolding parse_loop
parse_accumulator c =
    let parsed = parse_loop (suc (length c.in_accum)) c.in_accum c in
    elim (parsed.1) [ none ↦ parsed.0 | some rest ↦ record parsed.0 { in_accum = rest } ]

-- `while (new_sz < needed) new_sz *= 2;`, on a `size_t`
unfoldable pub grow_loop : ℕ → ℕ → ℕ → ℕ
grow_loop zero new_sz needed = new_sz
grow_loop (suc rounds) new_sz needed = elim (ltb new_sz needed) [
  | true ↦ grow_loop rounds ((new_sz * 2) % 2 ^ 64) needed
  | false ↦ new_sz
]

unfoldable pub grow : ℕ → ℕ → ℕ
unfolding grow_loop
grow size needed = if ltb size needed then grow_loop needed size needed else size

-- The bytes of a read, put behind those that are there.
unfoldable pub accumulate : List ℕ → Connection → Connection
unfolding grow
accumulate bytes c = record c {
  accum_size = grow c.accum_size (length c.in_accum + length bytes);
  in_accum = c.in_accum ++ bytes;
}

-- A read that failed, or one that brought bytes.
pub data ReadResult : Type 0 where
  read_error : ReadResult
  bytes_read : List ℕ → ReadResult

unfoldable pub handle_read : ReadResult → Connection → Connection
unfolding accumulate perform
handle_read read_error c = notify_disconnect_once c
handle_read (bytes_read bytes) c =
    let parsed = parse_accumulator (accumulate bytes c) in
    if parsed.disconnect_notified then parsed else perform start_read parsed
