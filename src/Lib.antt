-- ===== src/Lib.antt =====
-- The secure voting platform: an election server that authorizes a voter by a blind signature and
-- takes anonymous ballots that carry the unblinded signature.
--
-- The parts, by file:
-- * Models (app/models.py): the rows and the tables with the constraints that an insertion meets. A
--   `Store` is the database; `none` from an insertion is an IntegrityError.
-- * Keys (app/security/blind_signature.py): the keypair of each election, the process's cache and the
--   published key directories, `generate_blind_signing_keypair`, `ensure_election_blind_signing_key`.
-- * BlindSignature (app/security/blind_signature.py, app/static/js/blind_vote.js): `hash_ballot`,
--   `blind_sign`, `verify_unblinded_signature`, and the blinding and unblinding of the client.
-- * Voters (app/vote_service.py, app/routes/main.py): the eligibility of a voter.
-- * Ballots (app/routes/main.py, app/vote_service.py): `blind_signing_public_key`,
--   `request_blind_token`, `cast_anonymous_ballot` and `cast_anonymous_vote`.
-- * Elections (app/routes/elections.py, app/services/election_key_service.py): `create_election`,
--   `open_election`, `close_election`, and `reconcile_open_election_keys`.
-- * Candidates (app/routes/candidates.py): `create_candidate`, `update_candidate`, `delete_candidate`.
-- * Results (app/services/results_service.py): `get_vote_tallies`.
-- * Otp (app/services/otp_service.py): `issue_otp_challenge` and `verify_otp_challenge`.
-- * Passwords (app/security/password_validator.py): the policy and the score.
-- * Accounts (app/models.py, app/auth.py, app/routes/password_reset.py): lockout, expiry, the password
--   step of `login`, `reset_password`.
-- * Registration (app/auth.py, app/models.py): `register` with its validators and the licence index.
-- * Administration (app/routes/admin_users.py, app/routes/registration.py, app/routes/password.py):
--   `approve_user`, `reject_user`, `unlock_user`, `verify_email`, `change_password`.
-- * AccountLife (the last three parts together): their requests one after the other, on one database.
-- * Sessions (app/security/jwt_helpers.py, app/__init__.py): `issue_token`, `_load_user_from_jwt`.
-- * AuditLog (app/logging_service.py): `HmacAuditHandler.emit` and `verify_audit`.
-- * SignedResults (app/security/signing_service.py, app/routes/results.py): `sign_data`,
--   `verify_signature`, `sign_election_results`, `get_latest_results`, `verify_election_results`.
-- * Encryption (app/security/encryption.py): `ChaChaEncryptionService` and `EncryptedType`.
-- * Startup (app/utils/db_utils.py): `wait_for_db`.
-- * Json reads request bodies as Python's objects; Outcome says how a request ends and holds the
--   `Server`, a database and a key state; Prelude has the shared helpers.
--
-- How they interact: `open_election` provisions a keypair in Keys and anchors its fingerprint in the
-- election's row. `request_blind_token` and `cast_anonymous_ballot` check the key against that anchor
-- before they sign or verify. The roster that Candidates edits is read by Ballots and Elections, and
-- Results counts what Ballots stores, and SignedResults signs
-- what Results counts. A row of `users` is written by Registration, Accounts and Administration;
-- Sessions accepts a token while the row still has the token's session version.
--
-- A handler is a function from the server to an outcome and the server after it. A guard that
-- returns early is `refuse`; `server_error` is an exception that the handler does not catch. Each
-- call of a handler is one step, so that interleavings are sequences of calls; for most the row
-- locks and the process locks make it so. Where a handler reads before it locks (`reset_password`)
-- the two reads take different tables. The password step of `login` takes no lock: that two calls at
-- the same time read the same number of failed attempts is not modelled. A `Session` has the
-- committed rows and those that the handler assigned; what is not committed is gone at the end of
-- the request (`end_request`). The `audit` of a `Store` is the audit log, not a table: the events
-- that the handlers send to the logger, newest first.
--
-- Parameters, for code that is not the repository's: `sha256`, `json.loads` with its UTF-8 decoding
-- and `isoformat` (`Runtime`), the fingerprint of a public key, the answers of the operating system
-- and of the RSA generator (`Attempt`), hashing and checking a password, the keyed digest of a one-
-- time password, the collation of the database, reading a date, random identifiers, and the clock;
-- signing and reading a bearer token (PyJWT) with its lifetime from the environment, reading a
-- mailed token (itsdangerous), the keyed hash of a licence, `json.dumps` and HMAC of the audit log,
-- and the RSA library and the Vault client of signed results (`Signer`), the cipher of personal
-- data, the decoding of UTF-8 and the answers of the database to a connection. Times are
-- microseconds of naive UTC.
--
-- Bounds: `gcd_fuel` runs on one more than its second number, and any fuel above it gives the same
-- result; `decimal_fuel` likewise; `wait_loop` runs on `max_attempts`, one round for each attempt. Texts
-- are lists of code points. `int` of a text reads ASCII digits.
--
-- Not modelled: a write of the audit log that stops part-way, the web framework, forms and pages,
-- mails and their limits, the copy of a sealed log, the HTTP client of Vault, loading of keys, the
-- MFA step of `login`, CSRF checks, configuration, listings, migrations and scripts.
pub mod Prelude
pub mod Json
pub mod Keys
pub mod BlindSignature
pub mod Outcome
pub mod Voters
pub mod Ballots
pub mod Elections
pub mod Candidates
pub mod Results
pub mod Otp
pub mod Passwords
pub mod Accounts
pub mod Models
pub mod Registration
pub mod Administration
pub mod AccountLife
pub mod AuditLog
pub mod SignedResults
pub mod Encryption
pub mod Sessions
pub mod Startup
pub mod Tests
