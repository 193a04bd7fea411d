-- ===== src/Outbox.antt =====
-- The relay from the outbox table to the event bus (internal/infra/outbox).
pub mod Table
pub mod Relay
pub mod Writes
pub mod Pass
pub mod Settling
pub mod Delivery
mod Tests
