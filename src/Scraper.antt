-- ===== src/Scraper.antt =====
-- apps/scraper/src: the scraper of LegalInfo.
pub mod Retry
pub mod Requests
