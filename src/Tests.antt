-- ===== src/Tests.antt =====
-- Runs of the model at concrete inputs, at which the theorems' hypotheses hold.
pub mod Data
pub mod StoreMap
pub mod Uploads
mod QueueTests
mod FleetTests
mod CacheTests
mod PlainTests
mod ResultTests
mod ReconcileTests
mod IngestTests
mod Ec2Tests
mod TickTests
