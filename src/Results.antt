-- ===== src/Results.antt =====
-- The tallies of app/services/results_service.py.
mod Defs
pub mod Totals
pub mod Counted
unfoldable pub use Defs.*
