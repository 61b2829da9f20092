-- ===== src/Shared.antt =====
-- src/threat_agent/shared
pub mod Json
pub mod Text
pub mod DraftEditor
pub mod Llm
mod Examples
