-- ===== src/Pipeline.antt =====
-- poc/end-to-end: the market data, the risk engine and the gateway on one bus.
pub mod Market
pub mod Gateway
pub mod Engine
pub mod Script
mod Tests
mod ScriptTests
