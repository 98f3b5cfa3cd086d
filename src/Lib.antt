-- ===== src/Lib.antt =====
-- The financial exchange: its matching engine, its wire protocol and its queues.
--
-- The program is a limit-order-book exchange. Connections put the clients' messages into a queue,
-- one thread takes them out and calls the order book, and the book's callbacks become messages to
-- the clients and to the subscribers of the market feed.
--
-- Common      shared helpers: tests on numbers, lists, `uint32_t` arithmetic, the loop `while`.
-- Types       src/types.hpp.
-- Book        src/order.hpp, src/pricelevel.hpp, src/callbacks.hpp, src/order_book.hpp,
--             src/order_book.cpp. Pool is `OrderPool`; Side is `OrderBookSide` without matching; Match
--             is `match_loop` with `match_buy` and `match_sell`; Api is `OrderBook`; Snapshot is
--             `build_snapshot`. The other modules prove: Links (queues of linked slots), Best (the
--             best price index), Invariant (a well-formed side), Trading, Matching, Matcher, LevelLoop and
--             MatchLoop (matching), Adding, Resting and Submitting (`submit_order`), Initial (a new
--             book), Depth (the snapshot), Answers and Placing (the answers to
--             `submit_order`), Cancelling (`cancel_order`), Errors and Amending (`amend_order`).
-- Protocol    src/protocol.hpp. Payloads are the structs, Layout their packed widths, Make the `make_`
--             functions, MessageType the types with their sizes, Buffer the functions that write and
--             parse a buffer, Wire the bytes of the structs that `dispatch_` of src/exchange.cpp reads.
-- Exchange    src/exchange.hpp, src/exchange.cpp. Messages are the state and the senders, Callbacks the
--             callbacks of the book, Engine `dispatch_` and the subscriptions, Server the
--             acceptor, the table and the inbox; Numbering, Subscribers, Draining and Accepting prove.
-- Connection  src/connectivity.hpp, src/connectivity.cpp. Frame has the messages and their framing, State
--             what a connection keeps and does, Read `handle_read_` and `parse_accumulator_`, Write
--             `send_message`, `drain_writes_` and `handle_write_`; Run is runs of them. The other modules
--             prove: Framing and Handling (one frame), Chunks, Ending, Masking, Receive and Reads (a
--             stream cut into reads), Deliver (frames to messages), Doubling and Growth (the accumulator), Outgoing,
--             Fill, Drain, Sending, Writing and Stream (the batches), Once (the callback for a
--             disconnection), EndToEnd (two connections).
-- Logger      src/binary_logger.hpp. Sink is a file with its staging buffer and `drain_queue_`, Log the
--             logger; Putting, Pushing, Logging, Stopping and Closing prove.
-- Shadow      apps/market_simulator/shadow_order_book.hpp. Levels is a side's map, ShadowBook the class;
--             Keeping, Tracking and BestPrices prove.
-- Spsc        src/spsc_queue.hpp. Queue is the class, Fifo the list that it stands for.
--
-- A number is the native ℕ, and the wrap of an unsigned type is written out (`add32`, `sub32`,
-- `add64`, `sub64`); a price is a signed number (ℤ) up to the check of `submit_order` and a natural
-- number behind it. A pointer to an order is the number of its slot in the pool, `none` for
-- `nullptr`; an array is a function of its index. The callbacks of the book are the list of events
-- that a call returns, in the order of the calls. The times that `utc_now_ns` returns are arguments.
--
-- The loops of `match_loop` are `while` with a bound on the rounds: one more than the incoming
-- quantity, which every round lowers (`match_step` and its like prove it, so the bound is never
-- met). The scans for the best price recurse on the number of levels left.
--
-- A connection lists what it asks of its socket, its strand and its owner as actions; the results of
-- reads and writes are arguments. `receive` runs the handlers of
-- reads and the posted notifications, in any order. A run takes the handlers and the calls of `send_message` one after the
-- other, in any order; an unbuffered message is an action of its own and is in no run. The queues of a
-- connection stand in its state. `parse_loop` has one round more than there are bytes, `fill` one more
-- than the queue holds, and `grow_loop` as many as bytes are needed: enough up to 2 ^ 63 bytes, past
-- which the 64-bit size wraps to zero and the loop of the code does not end.
--
-- The logger's files are the lists of buffers handed to `WriteFile`, whose result the code does not
-- look at. `writer_stop` has a bound on its rounds, of which 128 are enough for the largest queue.
--
-- Not modelled: the sockets, strands and signals of Boost.Asio, the text logger, the
-- names of the log files, the clock, printing, the rest of the market simulator and the Python client; the SPSC queue's calls are single steps.
pub mod Common
pub mod Types
pub mod Book
pub mod Protocol
pub mod Spsc
pub mod Connection
pub mod Exchange
pub mod Logger
pub mod Shadow
