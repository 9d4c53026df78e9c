-- ===== src/Registration.antt =====
-- The registration of a voter (app/auth.py).
mod Validators
mod Defs
pub mod Admission
unfoldable pub use Validators.*
unfoldable pub use Defs.*
