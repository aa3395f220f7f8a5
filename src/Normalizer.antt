-- ===== src/Normalizer.antt =====
-- packages/citation-normalizer/src: the normalizer of citations.
pub mod Text
pub mod Locator
pub mod Catalog
