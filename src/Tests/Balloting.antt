-- ===== src/Tests/Balloting.antt =====
-- The authorization of a voter and the ballot on the small election.
use secure_voting_platform.Prelude.{ℕ, true, ◌≡◌, ◌≢◌, refl, List, [], ◌∷◌, select, count, arith}
use secure_voting_platform.Keys.{
  ok, ensure_election_blind_signing_key, get_public_key_components, load_keys,
}
use secure_voting_platform.BlindSignature.{
  blind_sign, sign_with, in_domain, gcd, verify_unblinded_signature, verify_with, hash_ballot,
  full_domain_hash,
}
use secure_voting_platform.Voters.{is_eligible, lock_and_validate_voter, is_single_contest}
use secure_voting_platform.Prelude.Text.{hex_text, from_hex, int_of_text, Text, codes}
use secure_voting_platform.Ballots.Sequences.{Request, IsSound, run, run-IsSound}
use secure_voting_platform.Json.{subscript, both_in, to_int_16, to_int}
use secure_voting_platform.Prelude.Int.{pos, is_id}
use secure_voting_platform.Models.{
  Election, User, Candidate, Vote, has_token, has_receipt, has_nullifier, in_election,
}
use secure_voting_platform.Ballots.{Ballot, check_ballot}
use secure_voting_platform.Outcome.{already_issued, not_eligible, already_submitted}
use secure_voting_platform.Ballots.Issued.{
  MayVote, request_blind_token-once, request_blind_token-unlinkable,
}
use secure_voting_platform.Ballots.Accepted.{
  cast_anonymous_ballot-counts, cast_anonymous_ballot-replay,
}
use secure_voting_platform.Tests.Fixture.{anchor, toy_keys}
use secure_voting_platform.Outcome.{Outcome, done, refuse, Server, already_issued}
use secure_voting_platform.Models.{
  insert_token, record_audit_event, insert_nullifier, insert_vote, has_role, is_approved, is_open,
}
use secure_voting_platform.Ballots.{
  vote_hash, read_cast, record_authorization, not_yet_authorized, blinded_ballot, record_ballot,
  chosen_candidate, eligible_in, accept, open_election_of, token_request, nullifier_text, grant,
  request_blind_token, cast_anonymous_ballot, parse_ballot, nonce_hash,
}
use secure_voting_platform.Tests.Fixture.{
  token_body, ballot_body, creation, open_server, toy_fingerprint, toy_runtime,
}

abbrev request : ℕ → Text → Server → Outcome (ℕ × ℕ) × Server
request uid blinded s = request_blind_token toy_fingerprint creation 100 uid (token_body blinded) s

abbrev authorized_server : Server
authorized_server = (request 7 (codes "10") open_server).1

issue_10 : request 7 (codes "10") open_server ≡ (done (25, 1), authorized_server)
unfolding request_blind_token grant token_request both_in subscript to_int to_int_16 int_of_text
    open_election_of is_open eligible_in lock_and_validate_voter is_eligible is_approved has_role
    is_single_contest blinded_ballot not_yet_authorized ensure_election_blind_signing_key
    get_public_key_components load_keys blind_sign sign_with in_domain gcd record_authorization
    insert_token record_audit_event
issue_10 = refl

refuse_again : request 7 (codes "10") authorized_server ≡ (refuse already_issued, authorized_server)
unfolding request_blind_token grant token_request both_in subscript to_int to_int_16 int_of_text
    open_election_of is_open eligible_in lock_and_validate_voter is_eligible is_approved has_role
    is_single_contest blinded_ballot not_yet_authorized ensure_election_blind_signing_key
    get_public_key_components load_keys blind_sign sign_with in_domain gcd record_authorization
    insert_token record_audit_event
refuse_again = refl

abbrev pub cast : Text → Text → Server → Outcome (Unit {0}) × Server
cast token signature s =
    cast_anonymous_ballot toy_runtime toy_fingerprint creation 100 token (ballot_body signature) s

abbrev pub counted_server : Server
counted_server = (cast (codes "t1") (codes "1d") open_server).1

pub cast_1d : cast (codes "t1") (codes "1d") open_server ≡ (done tt, counted_server)
unfolding cast_anonymous_ballot parse_ballot nullifier_text to_int to_int_16 int_of_text
    open_election_of is_open ensure_election_blind_signing_key get_public_key_components load_keys
    verify_unblinded_signature verify_with hash_ballot full_domain_hash accept chosen_candidate
    is_single_contest record_ballot insert_vote insert_nullifier record_audit_event read_cast
    from_hex nonce_hash vote_hash
cast_1d = refl

-- A second voter of the small election is not there.
refuse_stranger : request 9 (codes "10") open_server ≡ (refuse not_eligible, open_server)
unfolding request_blind_token grant token_request both_in subscript to_int to_int_16 int_of_text
    open_election_of is_open eligible_in lock_and_validate_voter
refuse_stranger = refl

issue_5 : request 7 (codes "5") open_server ≡ (done (14, 1), (request 7 (codes "5") open_server).1)
unfolding request_blind_token grant token_request both_in subscript to_int to_int_16 int_of_text
    open_election_of is_open eligible_in lock_and_validate_voter is_eligible is_approved has_role
    is_single_contest blinded_ballot not_yet_authorized ensure_election_blind_signing_key
    get_public_key_components load_keys blind_sign sign_with in_domain gcd record_authorization
    insert_token record_audit_event
issue_5 = refl

request_blind_token-once_example :
    (e : Election) × (u : User) × ((e.id ≡ 1) × (u.id ≡ 7) × (is_open 100 e ≡ true))
    × MayVote u e open_server.db
    × (count (has_token 7 1) open_server.db.tokens ≡ 0)
    × (count (has_receipt 7 1) open_server.db.receipts ≡ 0)
    × (count (has_token 7 1) authorized_server.db.tokens ≡ 1)
    × ((authorized_server.db.votes ≡ open_server.db.votes)
        × (authorized_server.db.nullifiers ≡ open_server.db.nullifiers)
        × (authorized_server.db.receipts ≡ open_server.db.receipts))
request_blind_token-once_example =
    request_blind_token-once toy_fingerprint creation 100 7 (token_body (codes "10")) open_server
      authorized_server 25 1 issue_10

request_blind_token-unlinkable_example :
    authorized_server.db ≡ (request 7 (codes "5") open_server).1.db
request_blind_token-unlinkable_example =
    request_blind_token-unlinkable toy_fingerprint creation 100 7 (token_body (codes "10"))
      (token_body (codes "5")) open_server authorized_server (request 7 (codes "5") open_server).1
      25 14 1 issue_10 issue_5

abbrev pub ballot : Ballot
ballot = record {
  bytes = 0 ∷ [];
  signature = pos 29;
  candidate_id = pos 5;
  election_id = pos 1;
  nonce = anchor;
}

pub parse_1d : parse_ballot toy_runtime (ballot_body (codes "1d")) ≡ done ballot
unfolding parse_ballot nullifier_text to_int to_int_16 int_of_text from_hex
parse_1d = refl

cast_again :
    cast (codes "t2") (codes "1d") counted_server ≡ (refuse already_submitted, counted_server)
unfolding cast_anonymous_ballot parse_ballot nullifier_text to_int to_int_16 int_of_text
    open_election_of is_open ensure_election_blind_signing_key get_public_key_components load_keys
    verify_unblinded_signature verify_with hash_ballot full_domain_hash accept chosen_candidate
    is_single_contest record_ballot insert_vote insert_nullifier record_audit_event read_cast
    from_hex nonce_hash vote_hash hex_text
cast_again = refl

cast_anonymous_ballot-counts_example :
    (b : Ballot) × (e : Election) × (c : Candidate) × ((parse_ballot toy_runtime
          (ballot_body (codes "1d"))
        ≡ done b)
      × ((check_ballot toy_runtime toy_fingerprint creation b e toy_keys).0 ≡ ok true)
      × (is_id b.election_id e.id ≡ true)
      × (is_id b.candidate_id c.id ≡ true)
      × (is_open 100 e ≡ true)
      × (c.election_id ≡ e.id)
      × (is_single_contest (select (in_election e.id) open_server.db.candidates) ≡ true))
    × ((v : Vote) × (counted_server.db.votes ≡ v ∷ open_server.db.votes)
        × (v.candidate_id ≡ c.id)
        × (v.election_id ≡ e.id))
    × (count (has_nullifier e.id (nonce_hash toy_runtime b.nonce)) open_server.db.nullifiers ≡ 0)
    × (count (has_nullifier e.id (nonce_hash toy_runtime b.nonce)) counted_server.db.nullifiers ≡ 1)
    × ((counted_server.db.tokens ≡ open_server.db.tokens)
        × (counted_server.db.receipts ≡ open_server.db.receipts)
        × (counted_server.db.users ≡ open_server.db.users))
cast_anonymous_ballot-counts_example =
    cast_anonymous_ballot-counts toy_runtime toy_fingerprint creation 100 (codes "t1")
      (ballot_body (codes "1d")) open_server counted_server cast_1d

cast_anonymous_ballot-replay_example :
    cast (codes "t2") (codes "1d") counted_server ≢ (done tt, counted_server)
cast_anonymous_ballot-replay_example =
    cast_anonymous_ballot-replay toy_runtime toy_fingerprint creation 100 100 (codes "t1")
      (codes "t2") (ballot_body (codes "1d")) (ballot_body (codes "1d")) open_server counted_server
      counted_server counted_server ballot ballot cast_1d parse_1d parse_1d refl refl (λ id n h. h)

abbrev requests : List Request
requests =
    Request.authorize 100 7 (token_body (codes "10")) creation
    ∷ Request.cast 100 (codes "t1") (ballot_body (codes "1d")) creation
    ∷ Request.cast 100 (codes "t2") (ballot_body (codes "1d")) creation
    ∷ []

open_server-IsSound : IsSound 7 1 (nonce_hash toy_runtime anchor) open_server.db
open_server-IsSound = record {
  one_token = omega arith;
  one_nullifier = omega arith;
  balanced = refl;
}

run-IsSound_example :
    IsSound 7 1
      (nonce_hash toy_runtime anchor)
      (run toy_runtime toy_fingerprint requests open_server).db
run-IsSound_example =
    run-IsSound toy_runtime toy_fingerprint 7 1 (nonce_hash toy_runtime anchor) requests open_server
      open_server-IsSound
