-- ===== src/Spsc.antt =====
-- `SPSCQueue` of src/spsc_queue.hpp, the ring that the exchange thread and the other threads share.
-- A slot is read and written by one thread at a time, so a call is one step here.
pub mod Queue
pub mod Fifo
mod Tests
