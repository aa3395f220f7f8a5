-- ===== src/Publication.antt =====
-- The checks between a parse and its publication: src/parsers/legalinfo/confidence.ts and
-- src/application/ingest/publication-gate.ts.
pub mod Patterns
pub mod Confidence
pub mod SpecialLaws
pub mod Gate
pub mod Laws
