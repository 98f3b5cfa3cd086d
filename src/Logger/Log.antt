-- ===== src/Logger/Log.antt =====
-- `BinaryEventLogger` of src/binary_logger.hpp: five queues with their sinks, and the writer thread.
use financial_exchange.Common.{
  ℕ, zero, suc, Bool, true, false, ◌||◌, Option, none, some, List, [], ltb, if◌then◌else◌, update,
  ◌==◌, ◌>>=◌,
}
use financial_exchange.Protocol.MessageType.{
  MessageType, price_level_update, trade_event, order_inserted_event, order_cancelled_event,
  order_amended_event,
}
use financial_exchange.Spsc.Queue.{size_approx, add64, new_queue}
use financial_exchange.Logger.Sink.{
  Channel, FileSink, open_sink, flush_sink, flush_sink_if_nonempty, close_sink, drain_queue,
  push_payload,
}

-- The five queues and sinks stand in the order of the constructor's calls of `open_sink_`.
pub record Logger : Type 0 where
  pub channel : ℕ → Channel

unfoldable pub type_of : ℕ → MessageType
type_of k =
    if k == 0
    then price_level_update
    else if k == 1
    then trade_event
    else if k == 2
    then order_inserted_event
    else if k == 3
    then order_cancelled_event
    else order_amended_event

-- The switch of `log_message`.
unfoldable pub sink_of : MessageType → Option ℕ
sink_of price_level_update = some 0
sink_of trade_event = some 1
sink_of order_inserted_event = some 2
sink_of order_cancelled_event = some 3
sink_of order_amended_event = some 4
sink_of _ = none

unfoldable pub queue_cap : ℕ → ℕ
queue_cap k = if ltb k 2 then 32_768 else 16_384

-- The constructor, told of each file whether it could be made; `none` is the exception.
unfoldable pub new_logger : (ℕ → Bool) → Option Logger
new_logger file_made = do
  plu ← open_sink (file_made 0) (type_of 0)
  trades ← open_sink (file_made 1) (type_of 1)
  inserts ← open_sink (file_made 2) (type_of 2)
  cancels ← open_sink (file_made 3) (type_of 3)
  amends ← open_sink (file_made 4) (type_of 4)
  some (record {
    channel = λ k. record {
      queue = new_queue [];
      sink =
          if k == 0
          then plu
          else if k == 1
          then trades
          else if k == 2
          then inserts
          else if k == 3
          then cancels
          else amends;
    };
  })

abbrev pub writer_batch : ℕ
writer_batch = 256

unfoldable pub log_message : MessageType → List ℕ → Logger → Logger
log_message t payload l = elim (sink_of t) [
  | none ↦ l
  | some k ↦ record l {
    channel = update l.channel k (push_payload (queue_cap k) payload (l.channel k));
  }
]

unfoldable pub backlog_approx : Logger → ℕ
backlog_approx l =
    add64
      (add64
        (add64 (add64 (size_approx (l.channel 0).queue) (size_approx (l.channel 1).queue))
          (size_approx (l.channel 2).queue))
        (size_approx (l.channel 3).queue))
      (size_approx (l.channel 4).queue)

-- One round of `writer_loop`. The five calls of `drain_queue_` do not touch each other's queue or sink.
unfoldable pub drain_all : Logger → Logger × Bool
drain_all l =
    let drained = λ (k : ℕ). drain_queue (queue_cap k) writer_batch (l.channel k) in
    (
      record { channel = λ k. (drained k).0 },
      (drained 0).1 || (drained 1).1 || (drained 2).1 || (drained 3).1 || (drained 4).1,
    )

unfoldable pub with_sinks : (FileSink → FileSink) → Logger → Logger
with_sinks f l = record { channel = λ k. record (l.channel k) { sink = f (l.channel k).sink } }

unfoldable pub writer_round : Logger → Logger
writer_round l =
    let drained = drain_all l in
    if drained.1 then drained.0 else with_sinks flush_sink_if_nonempty drained.0

-- `writer_loop` once `running_` is false: rounds while there is a backlog, and the flushes.
unfoldable pub writer_stop : ℕ → Logger → Logger
writer_stop zero l = with_sinks flush_sink l
writer_stop (suc rounds) l = elim (ltb 0 (backlog_approx l)) [
  | true ↦ writer_stop rounds (writer_round l)
  | false ↦ with_sinks flush_sink l
]

-- The destructor: the thread is joined, the sinks are flushed again and closed.
unfoldable pub destroy : ℕ → Logger → Logger
destroy rounds l = with_sinks close_sink (with_sinks flush_sink (writer_stop rounds l))
