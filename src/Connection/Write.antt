-- ===== src/Connection/Write.antt =====
-- Writing: `send_message`, `send_message_unbuffered`, and the batches of src/connectivity.cpp.
use financial_exchange.Common.{
  ℕ, zero, suc, ◌+◌, true, false, none, some, List, [], ◌++◌, length, take, drop, ltb,
  if◌then◌else◌, ◌==◌, is_some,
}
use financial_exchange.Protocol.MessageType.{
  MessageType, code, payload_size_for_type, max_payload_size_buffer,
}
use financial_exchange.Spsc.Queue.{try_push, peek, consume_one}
use financial_exchange.Connection.Frame.{
  OutboundMessage, frame, payload_array, outbound_q_cap, wire_header_size,
}
use financial_exchange.Connection.State.{
  Connection, perform, start_write, write_unbuffered, post_drain, notify_disconnect_once,
}

abbrev pub batch_capacity : ℕ
batch_capacity = 65_536

unfoldable pub schedule_drain_writes : Connection → Connection
unfolding perform
schedule_drain_writes c =
    if c.write_wakeup_pending
    then c
    else perform post_drain (record c { write_wakeup_pending = true })

unfoldable pub outbound_message : ℕ → MessageType → List ℕ → OutboundMessage
unfolding payload_array
outbound_message id t payload = record {
  connection_id = id;
  message_type = code t;
  payload_size = payload_size_for_type t;
  payload = payload_array (take (payload_size_for_type t) payload);
}

unfoldable pub send_message : MessageType → List ℕ → Connection → Connection
unfolding outbound_message
send_message t payload c =
    if ltb max_payload_size_buffer (payload_size_for_type t)
    then c
    else let pushed =
        try_push outbound_q_cap (outbound_message c.id t payload) c.outbound_from_engine in
      if pushed.1 then schedule_drain_writes (record c { outbound_from_engine = pushed.0 }) else c

-- The task that it posts begins the write, if the socket is open still.
unfoldable pub send_message_unbuffered : ℕ → List ℕ → ℕ → Connection → Connection
unfolding perform
send_message_unbuffered message_type payload payload_size c =
    if payload_size == 0
    then c
    else perform (write_unbuffered (frame message_type payload_size payload)) c

unfoldable pub write_batch : Connection → Connection
unfolding perform
write_batch c =
    perform (start_write (drop c.out_batch_sent c.out_batch))
      (record c { write_in_progress = true })

-- The loop of `drain_writes_`: frames of the queue are moved to the batch while they fit.
unfoldable pub fill_loop : ℕ → Connection → Connection
fill_loop zero c = c
fill_loop (suc rounds) c = elim (peek outbound_q_cap c.outbound_from_engine) [
  | none ↦ c
  | some m ↦ elim (ltb batch_capacity (length c.out_batch + (wire_header_size + m.payload_size))) [
    | true ↦ c
    | false ↦ fill_loop rounds (record c {
      out_batch = c.out_batch ++ frame m.message_type m.payload_size m.payload;
      outbound_from_engine = (consume_one c.outbound_from_engine).0;
    })
  ]
]

-- Every round takes a message from the queue, which holds `outbound_q_cap` at most.
unfoldable pub fill : Connection → Connection
fill c = fill_loop (suc outbound_q_cap) c

unfoldable pub drain_writes : Connection → Connection
drain_writes c =
    let woken = record c { write_wakeup_pending = false } in
    if c.write_in_progress
    then woken
    else let filled = fill (record woken { out_batch = []; out_batch_sent = 0 }) in
      if length filled.out_batch == 0 then filled else write_batch filled

-- A write that failed, or one that took this many bytes of those handed over.
pub data WriteResult : Type 0 where
  write_error : WriteResult
  bytes_written : ℕ → WriteResult

unfoldable pub handle_write : WriteResult → Connection → Connection
handle_write write_error c = notify_disconnect_once (record c { write_in_progress = false })
handle_write (bytes_written n) c =
    let sent = record c { out_batch_sent = c.out_batch_sent + n } in
    if ltb sent.out_batch_sent (length c.out_batch)
    then write_batch sent
    else let done = record sent { write_in_progress = false } in
      if is_some (peek outbound_q_cap done.outbound_from_engine)
      then drain_writes done
      else if done.write_wakeup_pending
      then drain_writes (record done { write_wakeup_pending = false })
      else done
