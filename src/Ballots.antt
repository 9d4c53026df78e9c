-- ===== src/Ballots.antt =====
-- The ballot protocol of app/routes/main.py and app/vote_service.py: issuing a blind
-- authorization, casting an anonymous ballot, and the retired direct ballot.
mod Authorize
mod Cast
mod Direct
pub mod Issued
pub mod Accepted
pub mod Agreement
pub mod Sequences
unfoldable pub use Authorize.*
unfoldable pub use Cast.*
unfoldable pub use Direct.*
