-- ===== src/Candidates.antt =====
-- The roster routes of app/routes/candidates.py.
mod Defs
pub mod Roster
unfoldable pub use Defs.*
