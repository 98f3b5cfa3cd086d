-- ===== src/Connection/Run.antt =====
-- Runs of a connection: its handlers, one after the other in any order, with the bytes that the socket
-- has taken. No message is sent unbuffered in them.
use financial_exchange.Common.{
  ℕ, suc, ◌≤◌, ◌<◌, ◌≡◌, Bool, true, false, List, [], ◌∷◌, ◌++◌, length, take, drop, ltb,
  if◌then◌else◌,
}
use financial_exchange.Protocol.MessageType.{
  MessageType, payload_size_for_type, max_payload_size_buffer,
}
use financial_exchange.Spsc.Queue.{try_push}
use financial_exchange.Connection.Frame.{OutboundMessage, outbound_q_cap}
use financial_exchange.Connection.State.{Connection, run_inbound_ready}
use financial_exchange.Connection.Read.{ReadResult, handle_read}
use financial_exchange.Connection.Write.{
  outbound_message, send_message, drain_writes, write_error, bytes_written, handle_write,
}
use financial_exchange.Connection.Outgoing.{posted}

-- `drains_run` counts the posted drains that have been run, `written` has the bytes that the socket took
-- from the batches, `accepted` the messages that entered the queue; `failed` says that a write failed.
pub record Run : Type 0 where
  pub connection : Connection
  pub drains_run : ℕ
  pub written : List ℕ
  pub accepted : List OutboundMessage
  pub failed : Bool

abbrev pub unsent : Connection → List ℕ
unsent c = drop c.out_batch_sent c.out_batch

-- What a call of `send_message` puts into the queue.
unfoldable pub queued : MessageType → List ℕ → Connection → List OutboundMessage
queued t payload c =
    if ltb max_payload_size_buffer (payload_size_for_type t)
    then []
    else let m = outbound_message c.id t payload in
      if (try_push outbound_q_cap m c.outbound_from_engine).1 then m ∷ [] else []

abbrev pub begin : Connection → Run
begin c = record { connection = c; drains_run = 0; written = []; accepted = []; failed = false }

abbrev pub sent : MessageType → List ℕ → Run → Run
sent t payload r = record r {
  connection = send_message t payload r.connection;
  accepted = r.accepted ++ queued t payload r.connection;
}

abbrev pub drained : Run → Run
drained r = record r { connection = drain_writes r.connection; drains_run = suc r.drains_run }

abbrev pub wrote : ℕ → Run → Run
wrote n r = record r {
  connection = handle_write (bytes_written n) r.connection;
  written = r.written ++ take n (unsent r.connection);
}

abbrev pub write_failed : Run → Run
write_failed r = record r { connection = handle_write write_error r.connection; failed = true }

-- A posted drain is run once; a write ends that was begun, with no more bytes than it was given.
pub data Step (r : Run) : Run → Type 0 where
  send_step : (t : MessageType) (payload : List ℕ) → Step r (sent t payload r)
  drain_step : r.drains_run < posted r.connection.performed → Step r (drained r)
  wrote_step :
      (n : ℕ)
      → r.connection.write_in_progress ≡ true
      → n ≤ length (unsent r.connection)
      → Step r (wrote n r)
  write_failed_step : r.connection.write_in_progress ≡ true → Step r (write_failed r)
  read_step :
      (result : ReadResult) → Step r (record r { connection = handle_read result r.connection })
  ready_step : Step r (record r { connection = run_inbound_ready r.connection })

pub data Reach (c : Connection) : Run → Type 0 where
  begun : Reach c (begin c)
  later : {r s : Run} → Reach c r → Step r s → Reach c s
