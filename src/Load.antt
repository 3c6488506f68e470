-- ===== src/Load.antt =====
-- The load tests of loadtesting/.
pub mod Events
pub mod Tracer
pub mod Logs
pub mod Users
pub mod Dump
mod Tests
