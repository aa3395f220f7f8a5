-- ===== src/Evaluation.antt =====
-- src/application/evaluation: which node types may nest, and the report on one version's nodes.
pub mod ParentTypes
pub mod Structure
pub mod RoundTrip
pub mod Cycles
pub mod Passing
