-- ===== src/Protocol.antt =====
-- The wire format: src/protocol.hpp.
pub mod Payloads
pub mod Layout
pub mod Make
pub mod MessageType
pub mod Buffer
pub mod Wire
pub mod Sizes
mod Tests
