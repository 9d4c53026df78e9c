-- ===== src/Results/Defs.antt =====
-- `get_vote_tallies` (app/services/results_service.py): the query over candidates, regions and votes.
-- The collation of the database is a parameter, and so is whether it can be read.
use secure_voting_platform.Prelude.{
  ℕ, Bool, true, false, ◌&&◌, none, some, List, [], ◌∷◌, ◌==◌, find, select, count, if◌then◌else◌,
  ltb, leb,
}
use secure_voting_platform.Prelude.Int.{is_id}
use secure_voting_platform.Prelude.Text.{Text}
use secure_voting_platform.Json.{Json, to_int, value, rejected, crash}
use secure_voting_platform.Models.{Store, Region, Vote, Candidate}

pub record Tally : Type 0 where
  pub candidate_id : ℕ
  pub name : Text
  pub position : Text
  pub region_id : ℕ
  pub region : Text
  pub votes : ℕ

-- A ResultsUnavailableError, another exception, or the rows.
pub data TallyRead : Type 0 where
  unavailable uncaught : TallyRead
  tallies : List Tally → TallyRead

-- The join on the candidate and its election.
abbrev pub is_vote_for : Candidate → Vote → Bool
is_vote_for c v = (v.candidate_id == c.id) && (v.election_id == c.election_id)

abbrev pub has_region_id : ℕ → Region → Bool
has_region_id id r = r.id == id

-- The grouped rows; a candidate without a region has none.
unfoldable pub tally_rows : List Region → List Vote → List Candidate → List Tally
tally_rows regions votes [] = []
tally_rows regions votes (c ∷ cs) =
    let rest = tally_rows regions votes cs in
    elim (find (has_region_id c.region_id) regions) [
      | none ↦ rest
      | some r ↦
          record {
            candidate_id = c.id;
            name = c.name;
            position = c.position;
            region_id = c.region_id;
            region = r.name;
            votes = count (is_vote_for c) votes;
          }
          ∷ rest
    ]

module _ (name_lt : Text → Text → Bool) where
  -- `votes DESC, c.name ASC, c.id ASC`
  unfoldable pub precedes : Tally → Tally → Bool
  precedes a b =
      if a.votes == b.votes
      then if name_lt a.name b.name
        then true
        else if name_lt b.name a.name
        then false
        else leb a.candidate_id b.candidate_id
      else ltb b.votes a.votes

  unfoldable pub insert : Tally → List Tally → List Tally
  insert x [] = x ∷ []
  insert x (y ∷ ys) = let rest = insert x ys in if precedes x y then x ∷ y ∷ ys else y ∷ rest

  unfoldable pub order_by : List Tally → List Tally
  order_by [] = []
  order_by (x ∷ xs) = insert x (order_by xs)

  -- `get_vote_tallies`
  unfoldable pub get_vote_tallies : (readable : Bool) → Json → Store → TallyRead
  get_vote_tallies readable raw s = elim (to_int raw) [
    | rejected ↦ unavailable
    | crash ↦ uncaught
    | value z ↦
        if readable
        then tallies (
            order_by
              (tally_rows s.regions s.votes (select (λ c. is_id z c.election_id) s.candidates)))
        else unavailable
  ]
