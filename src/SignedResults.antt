-- ===== src/SignedResults.antt =====
-- The signed results of closed elections: app/security/signing_service.py and app/routes/results.py.
mod Signing
mod Defs
pub mod Official
pub mod Verified
pub mod RoundTrip
unfoldable pub use Signing.*
unfoldable pub use Defs.*
