-- ===== src/Middleware.antt =====
-- src/threat_agent/agent_middleware: the interceptors around the calls of the agent.
pub mod Budget
pub mod Messages
pub mod Compaction
pub mod Hygiene
pub mod Boundary
mod Examples
