-- ===== src/Book.antt =====
-- The matching engine: src/order.hpp, src/pricelevel.hpp, src/callbacks.hpp, src/order_book.hpp
-- and src/order_book.cpp.
pub mod Pool
pub mod Side
pub mod Match
pub mod Api
pub mod Snapshot
pub mod Depth
pub mod Links
pub mod Best
pub mod Invariant
pub mod Trading
pub mod Matching
pub mod Matcher
pub mod LevelLoop
pub mod MatchLoop
pub mod Adding
pub mod Resting
pub mod Submitting
pub mod Initial
pub mod Answers
pub mod Placing
pub mod Cancelling
pub mod Errors
pub mod Amending
mod Tests
