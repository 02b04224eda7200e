-- ===== src/Verification.antt =====
-- Identity and vehicle-ownership verification, backend/app/modules/verification.
pub mod State
pub mod Reuse
pub mod Identity
pub mod Ownership
