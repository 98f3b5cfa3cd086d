-- ===== src/Logger/Sink.antt =====
-- `FileSink` and `drain_queue_` of src/binary_logger.hpp.
use financial_exchange.Common.{
  ℕ, zero, suc, ◌+◌, ◌-◌, Bool, true, false, not, ◌&&◌, Option, none, some, List, [], ◌∷◌, ◌++◌,
  length, take, replicate, ltb, leb, if◌then◌else◌, ◌==◌,
}
use financial_exchange.Protocol.MessageType.{
  MessageType, payload_size_for_type, largest, price_level_update, trade_event,
  order_inserted_event, order_cancelled_event, order_amended_event,
}
use financial_exchange.Spsc.Queue.{SpscQueue, try_push, try_pop}

abbrev pub staging_bytes : ℕ
staging_bytes = 65_536

unfoldable pub max_logged_size : ℕ
max_logged_size = largest (
    payload_size_for_type trade_event
    ∷ payload_size_for_type order_inserted_event
    ∷ payload_size_for_type order_cancelled_event
    ∷ payload_size_for_type order_amended_event
    ∷ payload_size_for_type price_level_update
    ∷ [])

-- `writes` are the buffers handed to the file, in order; `staging` is the first `offset` bytes of that
-- array. The file is closed where `opened` is false.
pub record FileSink : Type 0 where
  pub writes : List (List ℕ)
  pub staging : List ℕ
  pub payload_size : ℕ
  pub opened : Bool

-- A queue with its sink.
pub record Channel : Type 0 where
  pub queue : SpscQueue (List ℕ)
  pub sink : FileSink

-- `open_sink_`, told whether the file could be made; `none` is the exception.
unfoldable pub open_sink : Bool → MessageType → Option FileSink
open_sink file_made t =
    if not file_made
    then none
    else if ltb max_logged_size (payload_size_for_type t)
    then none
    else some (record {
      writes = [];
      staging = [];
      payload_size = payload_size_for_type t;
      opened = true;
    })

unfoldable pub flush_sink : FileSink → FileSink
flush_sink s =
    if not s.opened
    then s
    else if length s.staging == 0
    then s
    else record s { writes = s.writes ++ (s.staging ∷ []); staging = [] }

unfoldable pub write_direct : List ℕ → FileSink → FileSink
write_direct bytes s = if not s.opened then s else record s { writes = s.writes ++ (bytes ∷ []) }

unfoldable pub close_sink : FileSink → FileSink
close_sink s = if not s.opened then s else record s { opened = false; staging = [] }

unfoldable pub flush_sink_if_nonempty : FileSink → FileSink
flush_sink_if_nonempty s =
    if ltb 0 (length s.staging) && leb 4_096 (length s.staging) then flush_sink s else s

-- What the loop of `drain_queue_` does with an item.
unfoldable pub put_item : List ℕ → FileSink → FileSink
put_item item s =
    if ltb staging_bytes s.payload_size
    then write_direct (take s.payload_size item) (flush_sink s)
    else let room =
        if ltb staging_bytes (length s.staging + s.payload_size) then flush_sink s else s in
      let staged = record room { staging = room.staging ++ take s.payload_size item } in
      if leb (staging_bytes - 4_096) (length staged.staging) then flush_sink staged else staged

unfoldable pub drain_loop : ℕ → ℕ → Bool → Channel → Channel × Bool
drain_loop capacity zero did c = (c, did)
drain_loop capacity (suc rounds) did c =
    let popped = try_pop capacity c.queue in
    elim (popped.1) [
      | none ↦ (c, did)
      | some item ↦
          drain_loop capacity rounds true (record { queue = popped.0; sink = put_item item c.sink })
    ]

unfoldable pub drain_queue : ℕ → ℕ → Channel → Channel × Bool
drain_queue capacity batch c = drain_loop capacity batch false c

-- The bytes of a message, copied over the front of an item of zeros.
unfoldable pub payload_item : ℕ → List ℕ → List ℕ
payload_item size payload = take size payload ++ replicate (max_logged_size - size) 0

unfoldable pub push_payload : ℕ → List ℕ → Channel → Channel
push_payload capacity payload c = record c {
  queue = (try_push capacity (payload_item c.sink.payload_size payload) c.queue).0;
}
