-- ===== src/Tests/Counting.antt =====
-- The tallies of the small election before and after its ballot, and the voter on the dashboard.
use secure_voting_platform.Prelude.{
  ℕ, ◌+◌, ◌≤◌, Bool, true, false, ◌≡◌, ◌≢◌, refl, some, [], ◌∷◌, count, ◌↔◌, arith,
}
use secure_voting_platform.Prelude.Int.{ℤ, pos}
use secure_voting_platform.Prelude.Text.{Text, codes}
use secure_voting_platform.Keys.{
  ensure_election_blind_signing_key, get_public_key_components, load_keys,
}
use secure_voting_platform.BlindSignature.{
  verify_unblinded_signature, verify_with, hash_ballot, full_domain_hash,
}
use secure_voting_platform.Voters.{is_single_contest}
use secure_voting_platform.Ballots.{
  cast_anonymous_ballot, parse_ballot, nullifier_text, open_election_of, accept, chosen_candidate,
  record_ballot, read_cast, nonce_hash, vote_hash,
}
use secure_voting_platform.Models.{is_open, insert_vote, insert_nullifier, record_audit_event}
use secure_voting_platform.Prelude.Text.{from_hex, hex_text, int_of_text}
use secure_voting_platform.Json.{to_int_16}
use secure_voting_platform.Json.{Json, to_int}
use secure_voting_platform.Models.{Status}
use secure_voting_platform.Outcome.{done}
use secure_voting_platform.Voters.{user_is_eligible_to_vote}
use secure_voting_platform.Candidates.{named}
use secure_voting_platform.Ballots.{eligible_in, not_yet_authorized}
use secure_voting_platform.Ballots.Agreement.{user_is_eligible_to_vote-agrees}
use secure_voting_platform.Results.{Tally, tallies, tally_rows, order_by, insert, get_vote_tallies}
use secure_voting_platform.Results.Totals.{total_votes, all_for_one}
use secure_voting_platform.Results.Counted.{cast_anonymous_ballot-tallied}
use secure_voting_platform.Tests.Fixture.{
  open_server, voter, election, toy_runtime, toy_fingerprint, creation, ballot_body,
}
use secure_voting_platform.Tests.Balloting.{counted_server, cast_1d, parse_1d, ballot}

abbrev row : ℕ → Tally
row votes = record {
  candidate_id = 5;
  name = codes "Bob";
  position = codes "Senator";
  region_id = 2;
  region = codes "North";
  votes = votes;
}

abbrev name_order : Text → Text → Bool
name_order a b = false

read_before :
    get_vote_tallies name_order true (Json.int (pos 1)) open_server.db ≡ tallies (row 0 ∷ [])
unfolding get_vote_tallies to_int tally_rows order_by insert
read_before = refl

read_after :
    get_vote_tallies name_order true (Json.int (pos 1)) counted_server.db ≡ tallies (row 1 ∷ [])
unfolding cast_anonymous_ballot parse_ballot nullifier_text to_int to_int_16 int_of_text
    open_election_of is_open ensure_election_blind_signing_key get_public_key_components load_keys
    verify_unblinded_signature verify_with hash_ballot full_domain_hash accept chosen_candidate
    is_single_contest record_ballot insert_vote insert_nullifier record_audit_event read_cast
    from_hex nonce_hash vote_hash hex_text get_vote_tallies tally_rows order_by insert
read_after = refl

one_row : (id : ℕ) → count (named id) open_server.db.candidates ≤ 1
one_row id = ground arith

cast_anonymous_ballot-tallied_example :
    (total_votes (row 1 ∷ []) ≡ total_votes (row 0 ∷ []) + 1)
    × ((z : ℤ)
        → z ≢ pos 1
        → get_vote_tallies name_order true (Json.int z) counted_server.db
          ≡ get_vote_tallies name_order true (Json.int z) open_server.db)
    × (all_for_one counted_server.db.candidates counted_server.db.votes ≡ true)
cast_anonymous_ballot-tallied_example =
    cast_anonymous_ballot-tallied toy_runtime toy_fingerprint creation name_order 100 (codes "t1")
      (ballot_body (codes "1d")) open_server counted_server ballot (row 0 ∷ []) (row 1 ∷ []) one_row
      refl refl cast_1d parse_1d read_before read_after

user_is_eligible_to_vote-agrees_example :
    (user_is_eligible_to_vote voter (some (election Status.open_)) open_server.db ≡ true) ↔ (
      (eligible_in 7 (election Status.open_) open_server.db ≡ done voter)
      × (not_yet_authorized voter (election Status.open_) open_server.db ≡ done tt))
user_is_eligible_to_vote-agrees_example =
    user_is_eligible_to_vote-agrees voter (election Status.open_) open_server.db refl
