-- ===== src/Citations.antt =====
-- src/application/citations: a citation phrase is parsed, looked up and judged.
pub mod Query
pub mod Lookup
pub mod Validator
