-- ===== src/AccountLife.antt =====
-- The life of an account through the requests that change it: registration and login (app/auth.py),
-- password reset and change, email verification and the administration's decisions (app/routes).
mod Defs
mod Numbering
mod Rules
mod Handlers
pub mod Refinement
pub mod Invariants
pub mod Persistence
unfoldable pub use Defs.*
pub use Numbering.*
pub use Rules.*
