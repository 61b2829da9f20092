-- ===== src/Cases.antt =====
-- src/threat_agent/case_management/application
pub mod BoundaryPolicy
pub mod DataReadiness
pub mod Redaction
pub mod RuntimeStore
pub mod EventKinds
pub mod Events
pub mod RunService
pub mod ApprovalService
pub mod Governance
mod Examples
mod RunExamples
mod ApprovalExamples
mod ReadinessExamples
mod GovernanceExamples
mod PendingExamples
