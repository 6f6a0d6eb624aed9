-- ===== src/Risk.antt =====
-- services/risk-engine: the durable store, the metrics, the consumer core and the stream worker.
pub mod Json
pub mod Config
pub mod Explain
pub mod Narrative
pub mod Metrics
pub mod Store
pub mod Positions
pub mod Consumer
pub mod Worker
pub mod Api
pub mod Wire
mod Tests
mod ServiceTests
mod ApiTests
mod NarrativeTests
mod WireTests
