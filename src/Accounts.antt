-- ===== src/Accounts.antt =====
-- The account rules of `User` (app/models.py), the password step of `login` (app/auth.py) and the
-- password reset (app/routes/password_reset.py).
mod Defs
pub mod Lockout
pub mod Reset
unfoldable pub use Defs.*
