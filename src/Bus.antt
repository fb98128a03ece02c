-- ===== src/Bus.antt =====
-- The line protocol of the message bus: the lines and words that the daemon services/bb-busd.c reads,
-- and the client library libbb/bb_bus.c.
pub mod Lines
pub mod Words
pub mod Client
mod Tests
