-- ===== src/Encryption.antt =====
-- The encryption of personal data (app/security/encryption.py).
mod Base64
mod Defs
pub mod RoundTrip
unfoldable pub use Base64.*
unfoldable pub use Defs.*
