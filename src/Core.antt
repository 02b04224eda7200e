-- ===== src/Core.antt =====
-- What the modules share: events, the audit trail, idempotency, backend/app/core and
-- backend/app/modules/audit.
pub mod Events
pub mod Idempotency
pub mod Outbox
pub mod Consumer
