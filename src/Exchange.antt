-- ===== src/Exchange.antt =====
-- The exchange: src/exchange.hpp and src/exchange.cpp.
pub mod Messages
pub mod Callbacks
pub mod Engine
pub mod Numbering
pub mod Subscribers
pub mod Server
pub mod Draining
pub mod Accepting
mod Tests
