-- ===== src/Voters.antt =====
-- The eligibility of a voter: `lock_and_validate_voter` of app/vote_service.py and
-- `user_is_eligible_to_vote` of app/routes/main.py, and the roster checks that both handlers of the
-- ballot protocol repeat.
use secure_voting_platform.Prelude.{
  ℕ, Bool, true, false, ◌&&◌, ◌||◌, not, Option, none, some, List, [], ◌∷◌, ◌==◌, any, find, select,
  all_equal, map,
}
use secure_voting_platform.Prelude.Text.{codes, text_eq}
use secure_voting_platform.Models.{
  Store, User, ElectoralRoll, Candidate, Election, has_role, is_approved, owns, in_election,
  has_receipt, has_token,
}
use secure_voting_platform.Outcome.{Outcome, done, not_eligible, refuse_if, or_refuse, ◌>>=◌, ◌>>◌}

-- The conditions on a user and the enrolment, shared by both functions.
unfoldable pub is_eligible : User → ElectoralRoll → Bool
is_eligible u e =
    is_approved u
    && u.email_verified
    && has_role (codes "voter" ∷ []) u
    && text_eq e.status (codes "active")
    && e.verified

-- `lock_and_validate_voter`: both exceptions are an IneligibleVoterError.
unfoldable pub lock_and_validate_voter : ℕ → Store → Outcome (User × ElectoralRoll)
lock_and_validate_voter uid s = do
  u ← or_refuse (find (λ x. x.id == uid) s.users) not_eligible
  e ← or_refuse (find (owns u.id) s.rolls) not_eligible
  refuse_if (not (is_eligible u e)) not_eligible
  done (u, e)

-- `{candidate.region_id …}` and `{candidate.position …}` each have one element.
unfoldable pub is_single_contest : List Candidate → Bool
is_single_contest cs =
    all_equal ◌==◌ (map (λ c. c.region_id) cs) && all_equal text_eq (map (λ c. c.position) cs)

-- `enrolment.region_id in region_ids`
abbrev pub covers_region : ℕ → List Candidate → Bool
covers_region r cs = any (λ c. c.region_id == r) cs

-- `user_is_eligible_to_vote`
unfoldable pub user_is_eligible_to_vote : User → Option Election → Store → Bool
user_is_eligible_to_vote u election s = elim (find (owns u.id) s.rolls) [
  | none ↦ false
  | some e ↦ is_eligible u e && elim election [
    | none ↦ true
    | some el ↦
        let cs = select (in_election el.id) s.candidates in
        is_single_contest cs
        && covers_region e.region_id cs
        && not (any (has_receipt u.id el.id) s.receipts || any (has_token u.id el.id) s.tokens)
  ]
]
