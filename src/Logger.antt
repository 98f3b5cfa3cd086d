-- ===== src/Logger.antt =====
-- The binary logger: src/binary_logger.hpp. Sink is a file with its staging buffer, Log the logger.
pub mod Sink
pub mod Log
pub mod Putting
pub mod Pushing
pub mod Logging
pub mod Stopping
pub mod Closing
mod Tests
