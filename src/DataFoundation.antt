-- ===== src/DataFoundation.antt =====
-- src/threat_agent/data_foundation
pub mod Ingestion
pub mod Entities
pub mod Projection
mod Examples
mod ProjectionExamples
