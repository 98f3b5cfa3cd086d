-- ===== src/Logger/Closing.antt =====
-- The start and the end of the logger.
use financial_exchange.Common.{
  ℕ, ◌≤◌, ◌<◌, ◌≡◌, refl, sym, ◌∙◌, subst, Bool, true, false, some, List, [], ◌++◌, arith, joined,
  if◌then◌else◌, ◌==◌, some-eq,
}
use financial_exchange.Protocol.MessageType.{
  MessageType, payload_size_for_type, largest, price_level_update, trade_event,
  order_inserted_event, order_cancelled_event, order_amended_event,
}
use financial_exchange.Spsc.Queue.{new_queue}
use financial_exchange.Spsc.Fifo.{new_queue-Holds}
use financial_exchange.Logger.Sink.{FileSink, open_sink, max_logged_size}
use financial_exchange.Logger.Log.{Logger, type_of, queue_cap, new_logger, destroy}
use financial_exchange.Logger.Putting.{content, IsSink}
use financial_exchange.Logger.Logging.{LogRun, LogReach, IsLogger, LogReach-IsLogger}
use financial_exchange.Logger.Stopping.{queue_cap-small, writer_stop-Emptied, destroy-Emptied}

abbrev pub opened_sink : MessageType → FileSink
opened_sink t = record {
  writes = [];
  staging = [];
  payload_size = payload_size_for_type t;
  opened = true;
}

abbrev pub sink_at : ℕ → FileSink
sink_at k =
    if k == 0
    then opened_sink price_level_update
    else if k == 1
    then opened_sink trade_event
    else if k == 2
    then opened_sink order_inserted_event
    else if k == 3
    then opened_sink order_cancelled_event
    else opened_sink order_amended_event

abbrev pub fresh_logger : Logger
fresh_logger = record { channel = λ k. record { queue = new_queue []; sink = sink_at k } }

-- A logger that could open its files starts with every channel empty.
pub new_logger-fresh :
    (file_made : ℕ → Bool)
    → ((k : ℕ) → k < 5 → file_made k ≡ true)
    → new_logger file_made ≡ some fresh_logger
unfolding new_logger open_sink type_of max_logged_size largest payload_size_for_type
new_logger-fresh file_made made =
    rw
      (
        new_logger,
        made 0 (omega arith),
        made 1 (omega arith),
        made 2 (omega arith),
        made 3 (omega arith),
        made 4 (omega arith),
      )
      refl

fresh_logger-IsLogger : IsLogger (λ _. []) fresh_logger
unfolding type_of payload_size_for_type
fresh_logger-IsLogger k =
    let sink = by_flags (k == 0) (k == 1) (k == 2) (k == 3) in
    ([], (new_queue-Holds (queue_cap k) [], tt, sink.0, sink.1))
  where
    by_flags :
        (a b c d : Bool)
        → let s =
            if a
            then opened_sink price_level_update
            else (if b
                then opened_sink trade_event
                else (if c
                    then opened_sink order_inserted_event
                    else (if d
                        then opened_sink order_cancelled_event
                        else opened_sink order_amended_event))) in
          let t =
            if a
            then price_level_update
            else (if b
                then trade_event
                else (if c
                    then order_inserted_event
                    else (if d then order_cancelled_event else order_amended_event))) in
          IsSink (payload_size_for_type t) s × (◌≡◌ {A = List ℕ} [] (content s ++ []))
    by_flags true b c d = ((refl, refl, omega arith, omega arith), refl)
    by_flags false true c d = ((refl, refl, omega arith, omega arith), refl)
    by_flags false false true d = ((refl, refl, omega arith, omega arith), refl)
    by_flags false false false true = ((refl, refl, omega arith, omega arith), refl)
    by_flags false false false false = ((refl, refl, omega arith, omega arith), refl)

-- For a logger that could open its five files, after any run of calls of `log_message`, each with the
-- bytes of its type, and of rounds of the writer: with 128 rounds or more after the stop, every file was
-- handed, in order, exactly the payloads of its type that had entered the queue, and it is closed.
pub destroy-written :
    (file_made : ℕ → Bool) (l : Logger) {r : LogRun}
    → ((k : ℕ) → k < 5 → file_made k ≡ true)
    → new_logger file_made ≡ some l
    → LogReach l r
    → (rounds : ℕ) → 128 ≤ rounds
    → (k : ℕ) → k < 5
    → (joined ((destroy rounds r.logger).channel k).sink.writes ≡ r.given k)
      × (((destroy rounds r.logger).channel k).sink.opened ≡ false)
destroy-written file_made l {r} made new reach rounds enough k few =
    let same = some-eq (sym (new_logger-fresh file_made made) ∙ new) in
    let ok = LogReach-IsLogger (subst (IsLogger (λ _. [])) same fresh_logger-IsLogger) reach in
    destroy-Emptied rounds r.given r.logger
      (writer_stop-Emptied rounds r.given 32_768 r.logger (omega arith)
        (λ j. ((ok j).0, (ok j).1, omega (arith, (ok j).1.0.3, queue_cap-small j))))
      k few
