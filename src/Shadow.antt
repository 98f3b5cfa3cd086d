-- ===== src/Shadow.antt =====
-- The simulator's copy of the order book: apps/market_simulator/shadow_order_book.hpp. Levels is the
-- sorted map of a side, ShadowBook the class; Keeping, Tracking and BestPrices prove.
pub mod Levels
pub mod Keeping
pub mod ShadowBook
pub mod Tracking
pub mod BestPrices
mod Tests
