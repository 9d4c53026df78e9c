-- ===== src/Models.antt =====
-- The rows of app/models.py and the tables that hold them.
mod Accounts
mod Elections
mod Ballots
mod Tables
unfoldable pub use Accounts.*
unfoldable pub use Elections.*
pub use Ballots.*
unfoldable pub use Tables.*
