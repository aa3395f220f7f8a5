-- ===== src/Domain.antt =====
-- src/domain: the entities of the corpus and the services over them.
pub mod Enums
pub mod Entities
pub mod Hierarchy
pub mod Version
pub mod CitationStatus
pub mod OpenQuestion
pub mod SourceDocument
