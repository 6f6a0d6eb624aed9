-- ===== src/Native.antt =====
-- poc/native-kill-restart: the relay and the consumer as processes that are killed and restarted.
pub mod Store
pub mod Fields
pub mod Relay
pub mod Consumer
pub mod Client
pub mod Process
pub mod Seed
pub mod Script
mod SeedTests
mod ScriptTests
mod ProcessTests
