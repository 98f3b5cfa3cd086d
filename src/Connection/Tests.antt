-- ===== src/Connection/Tests.antt =====
-- Two connections at concrete inputs: the theorems where their hypotheses hold.
use financial_exchange.Common.{
  joined, ℕ, ◌+◌, ◌≤◌, ◌<◌, ◌≡◌, ◌⊎◌, inl, refl, ap, true, false, none, List, [], ◌∷◌, ◌++◌, All,
  map, arith, length,
}
use financial_exchange.Protocol.MessageType.{
  code, cancel_order, payload_size_for_type, max_payload_size_buffer,
}
use financial_exchange.Spsc.Queue.{
  new_queue, try_push, peek, consume_one, size_approx, add64, sub64,
}
use financial_exchange.Spsc.Fifo.{Holds, new_queue-Holds}
use financial_exchange.Connection.Frame.{
  InboundMessage, OutboundMessage, inbound_q_cap, outbound_q_cap, next_frame, frame, write_u16_be,
  payload_array,
}
use financial_exchange.Connection.State.{Connection, new_connection, perform}
use financial_exchange.Connection.Read.{
  accumulate, parse_accumulator, handle_read, bytes_read, read_error,
}
use financial_exchange.Connection.Write.{
  send_message, schedule_drain_writes, outbound_message, drain_writes, fill, fill_loop, write_batch,
  handle_write, batch_capacity,
}
use financial_exchange.Connection.Run.{
  Run, Reach, begun, later, begin, sent, drained, wrote, unsent, queued, send_step, drain_step,
  wrote_step, read_step,
}
use financial_exchange.Connection.Outgoing.{posted}
use financial_exchange.Connection.Chunks.{parse}
use financial_exchange.Connection.Receive.{ReadEvent, read_bytes, ready_task, reads, receive}
use financial_exchange.Connection.Reads.{observed, settled, receive-joined}
use financial_exchange.Connection.Deliver.{
  IsSendable, encode_all, received, parse_accumulator-encode,
}
use financial_exchange.Connection.Growth.{IsByte, IsRoomy, handle_read-IsRoomy}
use financial_exchange.Connection.Stream.{accepted-written, waiting-drained}
use financial_exchange.Connection.Once.{called, new_connection-IsOnce}
use financial_exchange.Connection.EndToEnd.{receive-accepted}

abbrev blank_in : InboundMessage
blank_in = record { connection_id = 0; message_type = 0; payload_size = 0; payload = [] }

abbrev blank_out : OutboundMessage
blank_out = record { connection_id = 0; message_type = 0; payload_size = 0; payload = [] }

abbrev fresh : Connection
fresh = new_connection 7 (new_queue blank_in) (new_queue blank_out) true true false

abbrev payload : List ℕ
payload = 1 ∷ 2 ∷ 3 ∷ 4 ∷ 5 ∷ 6 ∷ 7 ∷ 8 ∷ []

abbrev one_sent : Run
one_sent = sent cancel_order payload (begin fresh)

abbrev in_flight : Run
in_flight = drained one_sent

drain_posted : 0 < posted one_sent.connection.performed
unfolding send_message schedule_drain_writes perform new_connection try_push new_queue size_approx
    outbound_message payload_array payload_size_for_type max_payload_size_buffer add64 sub64 code
drain_posted = omega arith

in_flight-writing : in_flight.connection.write_in_progress ≡ true
unfolding send_message schedule_drain_writes perform new_connection try_push new_queue size_approx
    outbound_message payload_array payload_size_for_type max_payload_size_buffer add64 sub64 code
    drain_writes fill fill_loop write_batch peek consume_one frame write_u16_be
in_flight-writing = refl

in_flight-bytes : unsent in_flight.connection ≡ 4 ∷ 0 ∷ 8 ∷ 1 ∷ 2 ∷ 3 ∷ 4 ∷ 5 ∷ 6 ∷ 7 ∷ 8 ∷ []
unfolding send_message schedule_drain_writes perform new_connection try_push new_queue size_approx
    outbound_message payload_array payload_size_for_type max_payload_size_buffer add64 sub64 code
    drain_writes fill fill_loop write_batch peek consume_one frame write_u16_be
in_flight-bytes = refl

in_flight-Reach : Reach fresh in_flight
in_flight-Reach = later (later begun (send_step cancel_order payload)) (drain_step drain_posted)

-- The socket takes five bytes of the eleven.
abbrev partly : Run
partly = wrote 5 in_flight

partly-Reach : Reach fresh partly
partly-Reach =
    later in_flight-Reach
      (wrote_step 5 in_flight-writing (omega (arith, ap length in_flight-bytes)))

empty : Holds outbound_q_cap (new_queue blank_out) []
empty = new_queue-Holds outbound_q_cap blank_out

accepted-written_example :
    (xs : List OutboundMessage) × Holds outbound_q_cap partly.connection.outbound_from_engine xs
    × (encode_all partly.accepted ≡ partly.written ++ (unsent partly.connection ++ encode_all xs))
    × (length partly.connection.out_batch ≤ batch_capacity)
accepted-written_example =
    accepted-written 7 (new_queue blank_in) (new_queue blank_out) true true false empty partly-Reach
      refl

waiting-drained_example :
    ((unsent partly.connection ≡ []) ⊎ (partly.connection.write_in_progress ≡ true))
    × (Holds outbound_q_cap partly.connection.outbound_from_engine []
        ⊎ (partly.connection.write_in_progress ≡ true)
        ⊎ (partly.drains_run < posted partly.connection.performed))
waiting-drained_example =
    waiting-drained 7 (new_queue blank_in) (new_queue blank_out) true true false empty partly-Reach
      refl

abbrev whole : Run
whole = wrote 11 in_flight

whole-Reach : Reach fresh whole
whole-Reach =
    later in_flight-Reach
      (wrote_step 11 in_flight-writing (omega (arith, ap length in_flight-bytes)))

whole-unsent : unsent whole.connection ≡ []
unfolding send_message schedule_drain_writes perform new_connection try_push new_queue size_approx
    outbound_message payload_array payload_size_for_type max_payload_size_buffer add64 sub64 code
    drain_writes fill fill_loop write_batch peek consume_one frame write_u16_be handle_write
whole-unsent = refl

whole-empty : peek outbound_q_cap whole.connection.outbound_from_engine ≡ none
unfolding send_message schedule_drain_writes perform new_connection try_push new_queue size_approx
    outbound_message payload_array payload_size_for_type max_payload_size_buffer add64 sub64 code
    drain_writes fill fill_loop write_batch peek consume_one frame write_u16_be handle_write
whole-empty = refl

abbrev chunks : List ReadEvent
chunks =
    read_bytes (4 ∷ 0 ∷ [])
    ∷ read_bytes (8 ∷ 1 ∷ 2 ∷ 3 ∷ 4 ∷ 5 ∷ 6 ∷ [])
    ∷ ready_task
    ∷ read_bytes (7 ∷ 8 ∷ [])
    ∷ ready_task
    ∷ []

whole-written : joined (reads chunks) ≡ whole.written
unfolding send_message schedule_drain_writes perform new_connection try_push new_queue size_approx
    outbound_message payload_array payload_size_for_type max_payload_size_buffer add64 sub64 code
    drain_writes fill fill_loop write_batch peek consume_one frame write_u16_be handle_write reads
whole-written = refl

few_accepted : length whole.accepted ≤ inbound_q_cap
unfolding send_message schedule_drain_writes perform new_connection try_push new_queue size_approx
    outbound_message payload_array payload_size_for_type max_payload_size_buffer add64 sub64 code
    drain_writes fill fill_loop write_batch peek consume_one frame write_u16_be handle_write queued
few_accepted = omega arith

peer-Holds : Holds inbound_q_cap (new_queue blank_in) []
peer-Holds = new_queue-Holds inbound_q_cap blank_in

receive-accepted_example :
    Holds inbound_q_cap
      (receive chunks fresh).inbound_to_engine
      (map (received fresh.id) whole.accepted)
unfolding new_connection
receive-accepted_example =
    receive-accepted 7 (new_queue blank_in) (new_queue blank_out) true true false empty whole-Reach
      refl whole-unsent whole-empty fresh chunks refl refl peer-Holds few_accepted whole-written

fresh-waits : next_frame fresh.in_accum ≡ none
unfolding new_connection next_frame
fresh-waits = refl

receive-joined_example :
    observed (receive chunks fresh)
    ≡ settled (parse (fresh.in_accum ++ joined (reads chunks)) fresh)
unfolding new_connection
receive-joined_example = receive-joined chunks fresh refl fresh-waits

-- A message of two bytes and the first byte of another frame.
abbrev short : OutboundMessage
short = record { connection_id = 7; message_type = 2; payload_size = 2; payload = 9 ∷ 8 ∷ 0 ∷ [] }

abbrev accumulated : Connection
accumulated = accumulate (2 ∷ 0 ∷ 2 ∷ 9 ∷ 8 ∷ 5 ∷ []) fresh

short-IsSendable : All IsSendable (short ∷ [])
unfolding max_payload_size_buffer
short-IsSendable = ((omega arith, omega arith), tt)

accumulated-bytes : accumulated.in_accum ≡ encode_all (short ∷ []) ++ (5 ∷ [])
unfolding new_connection accumulate frame write_u16_be
accumulated-bytes = refl

one_byte : next_frame (5 ∷ []) ≡ none
unfolding next_frame
one_byte = refl

accumulated-Holds : Holds inbound_q_cap accumulated.inbound_to_engine []
unfolding new_connection accumulate
accumulated-Holds = peer-Holds

parse_accumulator-encode_example :
    let parsed = parse_accumulator accumulated in
    Holds inbound_q_cap parsed.inbound_to_engine (map (received accumulated.id) (short ∷ []))
    × (parsed.in_accum ≡ 5 ∷ [])
    × (parsed.disconnect_notified ≡ accumulated.disconnect_notified)
parse_accumulator-encode_example =
    parse_accumulator-encode (short ∷ []) (5 ∷ []) [] accumulated accumulated-bytes one_byte
      short-IsSendable accumulated-Holds (omega arith)

fresh-IsRoomy : IsRoomy fresh
unfolding new_connection
fresh-IsRoomy = (inl refl, omega arith, tt)

two_bytes : All IsByte (3 ∷ 0 ∷ [])
two_bytes = (omega arith, (omega arith, tt))

handle_read-IsRoomy_example :
    let after = handle_read (bytes_read (3 ∷ 0 ∷ [])) fresh in
    (length fresh.in_accum + length {A = ℕ} (3 ∷ 0 ∷ [])
      ≤ (accumulate (3 ∷ 0 ∷ []) fresh).accum_size)
    × IsRoomy after
    × ((after.disconnect_notified ≡ true) ⊎ (next_frame after.in_accum ≡ none))
handle_read-IsRoomy_example =
    handle_read-IsRoomy (3 ∷ 0 ∷ []) fresh fresh-IsRoomy fresh-waits (omega arith) two_bytes

-- A read that fails, and another.
abbrev failing : Run
failing = record (begin fresh) {
  connection = handle_read read_error (handle_read read_error fresh);
}

failing-Reach : Reach fresh failing
failing-Reach = later (later begun (read_step read_error)) (read_step read_error)

new_connection-IsOnce_example :
    ((failing.connection.disconnect_notified ≡ false) × (called failing.connection.performed ≡ 0))
    ⊎ ((failing.connection.disconnect_notified ≡ true) × (called failing.connection.performed ≤ 1))
new_connection-IsOnce_example =
    new_connection-IsOnce 7 (new_queue blank_in) (new_queue blank_out) true true false failing-Reach
