-- ===== src/Ballots/Direct.antt =====
-- The direct ballot of app/vote_service.py, which no route calls any more, and the route `/vote`
-- that rejects it.
use secure_voting_platform.Prelude.{ℕ, not, ◌==◌, any, find}
use secure_voting_platform.Prelude.Text.{Text}
use secure_voting_platform.Models.{
  Store, Candidate, is_open, has_token, has_receipt, insert_vote, insert_receipt,
}
use secure_voting_platform.Outcome.{
  Outcome, election_not_open, outside_region, already_voted, already_issued, concurrent_duplicate,
  refuse_if, or_refuse, ◌>>=◌, ◌>>◌,
}
use secure_voting_platform.Voters.{lock_and_validate_voter}
use secure_voting_platform.Ballots.Cast.{Runtime, vote_hash}

module _ (rt : Runtime) where
  -- `cast_anonymous_vote` with the election that the candidate belongs to or the one that is given.
  -- An InvalidElectionError is `election_not_open`, an IneligibleVoterError of the region is
  -- `outside_region`, and an AlreadyVotedError one of the last three.
  unfoldable pub cast_anonymous_vote : ℕ → Text → ℕ → Candidate → ℕ → Store → Outcome Store
  cast_anonymous_vote now token uid c election_id s = do
    refuse_if (not (c.election_id == election_id)) election_not_open
    e ← or_refuse (find (λ x. x.id == election_id) s.elections) election_not_open
    refuse_if (not (is_open now e)) election_not_open
    (u, enrolment) ← lock_and_validate_voter uid s
    refuse_if (not (c.region_id == enrolment.region_id)) outside_region
    refuse_if (any (has_receipt u.id e.id) s.receipts) already_voted
    refuse_if (any (has_token u.id e.id) s.tokens) already_issued
    s₁ ←
        or_refuse
          (insert_vote
            (record {
              id = s.next_id;
              voter_token = token;
              candidate_id = c.id;
              election_id = e.id;
              position = c.position;
              vote_hash = vote_hash rt token e.id c.id now;
              created_at = now;
            })
            s)
          concurrent_duplicate
    or_refuse (insert_receipt (record { id = s₁.next_id; user_id = u.id; election_id = e.id }) s₁)
        concurrent_duplicate
