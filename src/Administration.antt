-- ===== src/Administration.antt =====
-- The administration of accounts (app/routes/admin_users.py), the verification of an email address
-- (app/routes/registration.py) and the change of a password (app/routes/password.py).
mod Defs
pub mod NewPassword
unfoldable pub use Defs.*
