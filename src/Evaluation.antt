-- ===== src/Evaluation.antt =====
-- src/threat_agent/agent_eval
pub mod Reporter
mod Examples
