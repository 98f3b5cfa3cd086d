-- ===== src/Connection.antt =====
-- A connection: src/connectivity.hpp and src/connectivity.cpp. Frame has the messages and their
-- framing, State what a connection keeps and asks of others, Read and Write its handlers.
pub mod Frame
pub mod State
pub mod Read
pub mod Write
pub mod Handling
pub mod Framing
pub mod Chunks
pub mod Ending
pub mod Masking
pub mod Receive
pub mod Reads
pub mod Deliver
pub mod Doubling
pub mod Growth
pub mod Outgoing
pub mod Fill
pub mod Run
pub mod Drain
pub mod Sending
pub mod Writing
pub mod Stream
pub mod Once
pub mod EndToEnd
mod Tests
