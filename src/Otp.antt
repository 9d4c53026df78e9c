-- ===== src/Otp.antt =====
-- The one-time passwords of app/services/otp_service.py.
mod Defs
pub mod Attempts
unfoldable pub use Defs.*
