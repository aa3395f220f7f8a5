-- ===== src/Corpus.antt =====
-- The corpus in the database, its repositories, and the services that write and read it.
pub mod Store
pub mod Repositories
pub mod Persist
pub mod Tables
pub mod Archive
pub mod Jobs
pub mod Keeping
