-- ===== src/Ballots/Agreement.antt =====
-- The two checks of a voter's right to vote: that of the dashboard (`user_is_eligible_to_vote`) and
-- that of `request_blind_token` (app/routes/main.py).
use secure_voting_platform.Prelude.{true, ◌≡◌, some, ◌==◌, find, ◌↔◌, arith, inl, inr, Option-cases}
use secure_voting_platform.Models.{Store, User, Election, owns}
use secure_voting_platform.Voters.{user_is_eligible_to_vote, lock_and_validate_voter}
use secure_voting_platform.Outcome.{done}
use secure_voting_platform.Ballots.Authorize.{eligible_in, not_yet_authorized}
use secure_voting_platform.Ballots.Issued.{eligible_in-MayVote, MayVote}

eligible-MayVote :
    (u : User) (e : Election) (s : Store)
    → user_is_eligible_to_vote u (some e) s ≡ true
    → MayVote u e s
unfolding user_is_eligible_to_vote
eligible-MayVote u e s h = elim (Option-cases (find (owns u.id) s.rolls)) [
  | inl absent ↦ absurd (ground (arith, absent))
  | inr (enrolment, found) ↦ record {
    enrolment = enrolment;
    enrolled = found;
    eligible = ground (arith, found);
    single = ground (arith, found);
    region = ground (arith, found);
    no_token = ground (arith, found);
    no_receipt = ground (arith, found);
  }
]

MayVote-eligible :
    (u : User) (e : Election) (s : Store)
    → MayVote u e s
    → user_is_eligible_to_vote u (some e) s ≡ true
unfolding user_is_eligible_to_vote
MayVote-eligible u e s m =
    ground (arith, m.enrolled, m.eligible, m.single, m.region, m.no_token, m.no_receipt)

MayVote-authorizes :
    (u : User) (e : Election) (s : Store)
    → find (λ (x : User). x.id == u.id) s.users ≡ some u
    → MayVote u e s
    → (eligible_in u.id e s ≡ done u) × (not_yet_authorized u e s ≡ done tt)
unfolding eligible_in not_yet_authorized lock_and_validate_voter
MayVote-authorizes u e s found m = (
  ground (arith, found, m.enrolled, m.eligible, m.single, m.region),
  ground (arith, m.no_token, m.no_receipt),
)

-- The dashboard offers an election to a user whose row is stored exactly when the checks of
-- `request_blind_token` on the voter, the roster and the earlier rows pass for this user.
pub user_is_eligible_to_vote-agrees :
    (u : User) (e : Election) (s : Store)
    → find (λ (x : User). x.id == u.id) s.users ≡ some u
    → (user_is_eligible_to_vote u (some e) s ≡ true)
      ↔ ((eligible_in u.id e s ≡ done u) × (not_yet_authorized u e s ≡ done tt))
user_is_eligible_to_vote-agrees u e s found = (
  (λ h. MayVote-authorizes u e s found (eligible-MayVote u e s h)),
  (λ (h, k). MayVote-eligible u e s ((eligible_in-MayVote u.id e s h k).1)),
)
