-- ===== src/Elections.antt =====
-- The election routes of app/routes/elections.py and the reconciliation of
-- app/services/election_key_service.py.
mod Defs
pub mod Opening
pub mod Lifecycle
pub mod History
pub mod Reconcile
unfoldable pub use Defs.*
