-- ===== src/Judgment/Assembly.antt =====
-- judgment/application/report_assembly.py: the pipeline that assembles a report from one judgment.
pub mod Catalog
pub mod Whitelist
pub mod Resolved
pub mod Drafting
pub mod Backstops
pub mod Flow
pub mod Mechanical
pub mod Stripped
pub mod Repaired
pub mod Semantic
pub mod Trusted
pub mod Verbatim
