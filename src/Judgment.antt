-- ===== src/Judgment.antt =====
-- src/threat_agent/judgment/application
pub mod EvidenceGate
pub mod Grounding
pub mod Repair
pub mod Publication
pub mod Assembly
pub mod Gateway
pub mod Policy
pub mod Loop
pub mod MemoryStore
pub mod Examples
mod AssemblyExamples
mod LoopExamples
mod MemoryExamples
