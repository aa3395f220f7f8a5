-- ===== src/Ingest.antt =====
-- src/application/ingest/ingest-legalinfo.service.ts.
pub mod Request
pub mod Publish
pub mod Review
pub mod One
pub mod Run
pub mod Shape
pub mod Republish
pub mod Cli
