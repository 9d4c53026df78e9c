-- ===== src/Sessions.antt =====
-- The signed sessions (app/security/jwt_helpers.py and app/__init__.py).
mod Defs
mod Revoking
pub mod ResetOnce
pub mod Revocation
pub mod Sliding
unfoldable pub use Defs.*
pub use Revoking.*
