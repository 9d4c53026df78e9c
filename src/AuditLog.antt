-- ===== src/AuditLog.antt =====
-- The keyed chain of the audit log (app/logging_service.py).
mod Defs
pub mod Chain
pub mod Tampering
unfoldable pub use Defs.*
