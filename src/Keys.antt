-- ===== src/Keys.antt =====
-- The key files of app/security/blind_signature.py for one instance directory: the process's
-- cache, the published directories, and the functions that load, create and check a keypair.
-- The lock makes each call atomic. What the operating system and the RSA generator answer is an
-- argument, `Attempt`; the fingerprint of a public key is a parameter.
mod Defs
pub mod Immutable
pub mod Anchor
unfoldable pub use Defs.*
