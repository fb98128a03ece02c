-- ===== src/Busd.antt =====
-- The message bus daemon, services/bb-busd.c.
pub mod Table
pub mod Daemon
pub mod Ids
pub mod Topics
pub mod Publish
pub mod Valid
pub mod Bounds
pub mod Subscribe
pub mod Slots
pub mod Deliver
mod Tests
