-- ===== src/Wire.antt =====
-- The framing of Diameter messages (pkg/connection): headers, commands, and reading from a stream.
pub mod Header
pub mod Reader
pub mod Parsing
pub mod Framing
pub mod Streams
mod Runs
