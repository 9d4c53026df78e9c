-- ===== src/Tests.antt =====
-- Tests: the theorems applied to a small election.
mod Fixture
mod Voting
mod Balloting
mod Counting
mod Management
mod Login
mod Accounts
mod Auditing
mod Signing
mod Personal
mod Boot
