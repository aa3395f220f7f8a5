-- ===== src/Examples.antt =====
-- Concrete inputs at which the library's theorems apply.
mod Fixtures
mod Versions
mod Trees
mod Citing
mod Publishing
mod Retrieving
mod Ingesting
mod Fetching
mod Storing
mod Normalizing
mod Running
mod Republishing
mod Commanding
mod Pacing
mod Retrying
mod Browsing
