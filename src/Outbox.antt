-- ===== src/Outbox.antt =====
-- poc/outbox-idempotency: the double-entry ledger with its outbox, the relay, the stream bus and the
-- idempotent consumer.
pub mod Bus
pub mod Ledger
pub mod Relay
pub mod Consumer
pub mod Delivery
pub mod Scenarios
mod Tests
mod DeliveryTests
mod ScenarioTests
