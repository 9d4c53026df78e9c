-- ===== src/Ballots/Authorize.antt =====
-- `blind_signing_public_key` and `request_blind_token` of app/routes/main.py. A request is the value
-- of `request.get_json(silent=True)`; the logged-in user and the time are arguments.
use secure_voting_platform.Prelude.{ℕ, false, not, Option, none, some, any, find, select}
use secure_voting_platform.Prelude.Int.{ℤ, is_id, is_positive}
use secure_voting_platform.Prelude.Text.{Text, codes, int_of_text}
use secure_voting_platform.Json.{
  Json, Converted, value, rejected, crash, truthy, both_in, subscript, to_int, to_int_16,
}
use secure_voting_platform.Models.{
  Store, User, Election, is_open, in_election, has_receipt, has_token, insert_token,
  record_audit_event,
}
use secure_voting_platform.Keys.{
  PublicKey, Attempt, Components, KeyResult, KeyAction, ok, key_error, value_error, os_error,
  and_then, ensure_election_blind_signing_key,
}
use secure_voting_platform.BlindSignature.{blind_sign}
use secure_voting_platform.Outcome.{
  Outcome, done, refuse, Refusal, missing_fields, invalid_election_id, election_not_found,
  election_not_open, not_single_contest, outside_region, invalid_blinded_format,
  invalid_blinded_value, key_unavailable, already_issued, already_voted, concurrent_duplicate,
  server_error, refuse_if, or_refuse, ◌>>=◌, ◌>>◌, Server, commit, with_keys,
}
use secure_voting_platform.Voters.{lock_and_validate_voter, is_single_contest, covers_region}

-- A caught conversion error is refused; any other ends the request.
abbrev pub converted : {A : Type 0} → Converted A → Refusal → Outcome A
converted (value a) r = done a
converted rejected r = refuse r
converted crash r = refuse server_error

-- The checks of the request's fields, and `int(data["election_id"])`.
unfoldable pub token_request : Option Json → Outcome ℤ
token_request none = refuse missing_fields
token_request (some j) = do
  refuse_if (not (truthy j)) missing_fields
  complete ← converted (both_in (codes "blinded_ballot") (codes "election_id") j) server_error
  refuse_if (not complete) missing_fields
  raw ← converted (subscript (codes "election_id") j) invalid_election_id
  converted (to_int raw) invalid_election_id

-- `int(data['blinded_ballot'], 16)`
unfoldable pub blinded_ballot : Option Json → Outcome ℤ
blinded_ballot none = refuse invalid_blinded_format
blinded_ballot (some j) = do
  raw ← converted (subscript (codes "blinded_ballot") j) invalid_blinded_format
  converted (to_int_16 raw) invalid_blinded_format

abbrev pub find_election : ℤ → Store → Option Election
find_election z s = find (λ e. is_id z e.id) s.elections

-- `if not election or not election.is_open`
unfoldable pub open_election_of : ℕ → ℤ → Store → Outcome Election
open_election_of now z s = do
  e ← or_refuse (find_election z s) election_not_open
  refuse_if (not (is_open now e)) election_not_open
  done e

-- The voter's eligibility for the election, from the lock to the region.
unfoldable pub eligible_in : ℕ → Election → Store → Outcome User
eligible_in uid e s = do
  (u, enrolment) ← lock_and_validate_voter uid s
  let candidates = select (in_election e.id) s.candidates
  refuse_if (not (is_single_contest candidates)) not_single_contest
  refuse_if (not (covers_region enrolment.region_id candidates)) outside_region
  done u

-- The rows that speak of an earlier authorization or a direct ballot.
unfoldable pub not_yet_authorized : User → Election → Store → Outcome (Unit {0})
not_yet_authorized u e s = do
  refuse_if (any (has_token u.id e.id) s.tokens) already_issued
  refuse_if (any (has_receipt u.id e.id) s.receipts) already_voted

pub record Grant : Type 0 where
  pub election : Election
  pub user : User
  pub blinded : ℤ

-- `request_blind_token` up to the signature: everything that it reads.
unfoldable pub grant : ℕ → ℕ → Option Json → Store → Outcome Grant
grant now uid body s = do
  z ← token_request body
  e ← open_election_of now z s
  u ← eligible_in uid e s
  b ← blinded_ballot body
  not_yet_authorized u e s
  done (record { election = e; user = u; blinded = b })

-- The exceptions that the handler of the signature catches.
abbrev pub signed : {A : Type 0} → KeyResult A → Outcome A
signed (ok a) = done a
signed (key_error _) = refuse key_unavailable
signed value_error = refuse invalid_blinded_value
signed os_error = refuse server_error

-- The row, its flush, the commit and the audit event.
unfoldable pub record_authorization : User → Election → Store → Outcome Store
record_authorization u e s = do
  s' ←
      or_refuse (insert_token (record { id = s.next_id; user_id = u.id; election_id = e.id }) s)
        concurrent_duplicate
  done (
      record_audit_event
        (record {
          actor = some u.id;
          action = codes "ballot_authorization.issue";
          target_type = codes "election";
          target_id = e.id;
        })
        s')

module _ (fingerprint : PublicKey → Text) (attempt : Attempt) where
  -- The key check and the signature.
  abbrev pub sign_grant : Grant → KeyAction ℕ
  sign_grant g k =
      and_then
        (ensure_election_blind_signing_key fingerprint attempt false g.election.id
          g.election.blind_signing_key_id k)
        (λ _. blind_sign fingerprint g.blinded g.election.id)

  abbrev pub finish_grant : Grant → Outcome ℕ × Server → Outcome (ℕ × ℕ) × Server
  finish_grant g (done signature, s) =
      commit (signature, g.election.id) (record_authorization g.user g.election s.db) s
  finish_grant g (refuse r, s) = (refuse r, s)

  abbrev pub run_grant : Outcome Grant → Server → Outcome (ℕ × ℕ) × Server
  run_grant (refuse r) s = (refuse r, s)
  run_grant (done g) s = finish_grant g (with_keys (sign_grant g) signed s)

  -- `request_blind_token`: the blind signature and the election.
  unfoldable pub request_blind_token : ℕ → ℕ → Option Json → Server → Outcome (ℕ × ℕ) × Server
  request_blind_token now uid body s = run_grant (grant now uid body s.db) s

  -- `int(request.args.get("election_id"))`, and at least 1
  unfoldable pub key_request : Option Text → Outcome ℤ
  key_request none = refuse invalid_election_id
  key_request (some raw) = do
    z ← or_refuse (int_of_text 10 raw) invalid_election_id
    refuse_if (not (is_positive z)) invalid_election_id
    done z

  unfoldable pub election_for_key : ℕ → Option Text → Store → Outcome Election
  unfolding key_request
  election_for_key now raw s = do
    z ← key_request raw
    e ← or_refuse (find_election z s) election_not_found
    refuse_if (not (is_open now e)) election_not_open
    done e

  -- Only a BlindSigningKeyError is caught.
  abbrev pub served : KeyResult Components → Outcome Components
  served (ok c) = done c
  served (key_error _) = refuse key_unavailable
  served value_error = refuse server_error
  served os_error = refuse server_error

  abbrev serve_key : Outcome Election → Server → Outcome Components × Server
  serve_key (refuse r) s = (refuse r, s)
  serve_key (done e) s =
      with_keys
        (ensure_election_blind_signing_key fingerprint attempt false e.id e.blind_signing_key_id)
        served s

  -- `blind_signing_public_key`
  unfoldable pub blind_signing_public_key : ℕ → Option Text → Server → Outcome Components × Server
  blind_signing_public_key now raw s = serve_key (election_for_key now raw s.db) s
