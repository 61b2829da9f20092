-- ===== src/Response.antt =====
-- src/threat_agent/response_advisory: the advice that follows a judgment.
pub mod Policy
pub mod Graph
pub mod Examples
pub mod GraphExamples
