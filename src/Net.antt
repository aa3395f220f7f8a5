-- ===== src/Net.antt =====
-- src/infrastructure/http: what the engine fetches, and from where.
pub mod Url
pub mod Addresses
pub mod Backoff
pub mod Downloader
pub mod RateLimiter
