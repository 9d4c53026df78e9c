-- ===== src/Results/Counted.antt =====
-- What a ballot does to the tallies (app/routes/main.py, app/services/results_service.py).
use secure_voting_platform.Prelude.{
  ℕ, ◌+◌, ◌≤◌, ◌<◌, Bool, true, false, ◌≡◌, ◌≢◌, refl, ap, Option, some, List, [], ◌∷◌, ◌==◌, find,
  select, count, find-holds, arith, inl, inr, Bool-cases,
}
use secure_voting_platform.Prelude.Int.{ℤ, is_id, pos, negsuc}
use secure_voting_platform.Prelude.Text.{Text}
use secure_voting_platform.Json.{Json, to_int}
use secure_voting_platform.Models.{Store, Region, Vote, Candidate, Election}
use secure_voting_platform.Keys.{PublicKey, Attempt}
use secure_voting_platform.Outcome.{done, Server}
use secure_voting_platform.Candidates.{named}
use secure_voting_platform.Ballots.{Runtime, Ballot, cast_anonymous_ballot, parse_ballot}
use secure_voting_platform.Ballots.Accepted.{cast_anonymous_ballot-eq-done, Accepted, new_vote}
use mathlib.Core.Path.{subst}
use secure_voting_platform.Results.Defs.{
  order_by, Tally, tallies, is_vote_for, tally_rows, get_vote_tallies,
}
use secure_voting_platform.Results.Totals.{
  total_votes, all_for_one, all_in_regions, in_number, get_vote_tallies-total,
}

find-count {ℓ} :
    {A : Type ℓ} (p q : A → Bool) (xs : List A) {a : A}
    → find p xs ≡ some a
    → q a ≡ true
    → 0 < count q xs
find-count p q [] found h = cc
find-count p q (x ∷ xs) {a} found h = ground (arith, find-count p q xs {a = a})

count-le {ℓ} :
    {A : Type ℓ} (p q : A → Bool) (xs : List A)
    → ((x : A) → q x ≡ true → p x ≡ true)
    → count q xs ≤ count p xs
count-le p q [] h = omega arith
count-le p q (x ∷ xs) h = ground (arith, h x, count-le p q xs h)

same_number : (y z : ℤ) (n : ℕ) → is_id y n ≡ true → is_id z n ≡ true → y ≡ z
same_number (pos k) (pos j) n h h' = ground arith
same_number (pos k) (negsuc j) n h h' = absurd (cc h')
same_number (negsuc k) z n h h' = absurd (cc h)

tally_rows-other :
    (z : ℤ) (v : Vote) (rs : List Region) (vs : List Vote) (cs : List Candidate)
    → is_id z v.election_id ≡ false
    → tally_rows rs (v ∷ vs) (select (in_number z) cs) ≡ tally_rows rs vs (select (in_number z) cs)
unfolding tally_rows
tally_rows-other z v rs vs [] other = refl
tally_rows-other z v rs vs (c ∷ cs) other = ground (arith, tally_rows-other z v rs vs cs)

module _ (rt : Runtime) (fingerprint : PublicKey → Text) (attempt : Attempt)
    (name_lt : Text → Text → Bool) where
  new_vote_for_one :
      (now : ℕ) (token : Text) (body : Option Json) (s d : Store) (b : Ballot) (e : Election)
      (c : Candidate)
      → ((id : ℕ) → count (named id) s.candidates ≤ 1)
      → Accepted rt now token body s d b e c
      → (count (λ (x : Candidate). is_vote_for x (new_vote rt now token e c s)) s.candidates == 1)
        ≡ true
  new_vote_for_one now token body s d b e c once a =
      let found = find-holds _ s.candidates {a = c} a.chosen in
      let some_one =
        find-count _ (λ (x : Candidate). is_vote_for x (new_vote rt now token e c s)) s.candidates
          {a = c} a.chosen (ground arith) in
      let at_most =
        count-le (named c.id) (λ (x : Candidate). is_vote_for x (new_vote rt now token e c s))
          s.candidates (λ x h. ground arith) in
      ground (arith, once c.id)

  Accepted-other :
      (now : ℕ) (token : Text) (body : Option Json) (s d : Store) (b : Ballot) (e : Election)
      (c : Candidate) (z : ℤ)
      → Accepted rt now token body s d b e c
      → z ≢ b.election_id
      → get_vote_tallies name_lt true (Json.int z) d ≡ get_vote_tallies name_lt true (Json.int z) s
  unfolding get_vote_tallies to_int
  Accepted-other now token body s d b e c z a different = elim (Bool-cases (is_id z e.id)) [
    | inl same ↦ absurd (
        different (
          same_number z b.election_id e.id same
            (find-holds (λ (x : Election). is_id b.election_id x.id) s.elections {a = e} a.found)))
    | inr other ↦ rw a.stored (
        ap (λ rows. tallies (order_by name_lt rows))
          (tally_rows-other z (new_vote rt now token e c s) s.regions s.votes s.candidates other))
  ]

  -- An accepted ballot shows in the results: it raises the total of its own election by one and
  -- leaves the tallies of every other election as they are, and again every vote is for exactly
  -- one candidate. Before it, candidate identifiers are unique, every vote is for exactly one
  -- candidate of its own election, and every candidate has a region.
  pub cast_anonymous_ballot-tallied :
      (now : ℕ) (token : Text) (body : Option Json) (s t : Server) (b : Ballot)
      (rows rows' : List Tally)
      → ((id : ℕ) → count (named id) s.db.candidates ≤ 1)
      → all_for_one s.db.candidates s.db.votes ≡ true
      → all_in_regions s.db.regions s.db.candidates ≡ true
      → cast_anonymous_ballot rt fingerprint attempt now token body s ≡ (done tt, t)
      → parse_ballot rt body ≡ done b
      → get_vote_tallies name_lt true (Json.int b.election_id) s.db ≡ tallies rows
      → get_vote_tallies name_lt true (Json.int b.election_id) t.db ≡ tallies rows'
      → (total_votes rows' ≡ total_votes rows + 1)
        × ((z : ℤ)
            → z ≢ b.election_id
            → get_vote_tallies name_lt true (Json.int z) t.db
              ≡ get_vote_tallies name_lt true (Json.int z) s.db)
        × (all_for_one t.db.candidates t.db.votes ≡ true)
  cast_anonymous_ballot-tallied now token body s t b rows rows' once one regions h parsed before
        after =
      let (b', e, c, _, a') =
        cast_anonymous_ballot-eq-done rt fingerprint attempt now token body s t h in
      let same : b' ≡ b = ground (arith, a'.parsed) in
      let a = subst (λ x. Accepted rt now token body s.db t.db x e c) same a' in
      let one' : all_for_one t.db.candidates t.db.votes ≡ true =
        rw a.stored (ground (arith, one, new_vote_for_one now token body s.db t.db b e c once a)) in
      let (sum, _) = get_vote_tallies-total name_lt b.election_id s.db rows one regions before in
      let (sum', _) =
        get_vote_tallies-total name_lt b.election_id t.db rows' one' (rw a.stored regions) after in
      let own : is_id b.election_id e.id ≡ true =
        find-holds (λ (x : Election). is_id b.election_id x.id) s.db.elections {a = e} a.found in
      let more : count (λ (v : Vote). is_id b.election_id v.election_id) t.db.votes
          ≡ count (λ (v : Vote). is_id b.election_id v.election_id) s.db.votes + 1 =
        rw a.stored (ground (arith, own)) in
      (
        ground (arith, sum, sum', more),
        (λ z different. Accepted-other now token body s.db t.db b e c z a different),
        one',
      )
