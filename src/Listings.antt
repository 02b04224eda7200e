-- ===== src/Listings.antt =====
-- Listings, backend/app/modules/listings.
pub mod Readiness
pub mod Drafts
