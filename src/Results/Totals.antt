-- ===== src/Results/Totals.antt =====
-- The totals and the order of the tallies (app/services/results_service.py).
use secure_voting_platform.Prelude.{
  ℕ, ◌+◌, Bool, true, false, ◌&&◌, ◌≡◌, refl, ◌∙◌, List, [], ◌∷◌, ◌==◌, any, all, find, select,
  count, find-none, if◌then◌else◌, arith, inl, inr, Option-cases,
}
use secure_voting_platform.Prelude.Int.{ℤ, is_id}
use secure_voting_platform.Prelude.Text.{Text}
use secure_voting_platform.Json.{Json, to_int}
use secure_voting_platform.Models.{Store, Region, Vote, Candidate}
use secure_voting_platform.Results.Defs.{
  Tally, tallies, is_vote_for, has_region_id, tally_rows, precedes, insert, order_by,
  get_vote_tallies,
}

unfoldable pub total_votes : List Tally → ℕ
total_votes [] = 0
total_votes (x ∷ xs) = x.votes + total_votes xs

-- The votes of the candidates, one by one.
votes_of : List Vote → List Candidate → ℕ
votes_of vs [] = 0
votes_of vs (c ∷ cs) = count (is_vote_for c) vs + votes_of vs cs

tally_rows-total :
    (rs : List Region) (vs : List Vote) (cs : List Candidate)
    → all (λ (c : Candidate). any (has_region_id c.region_id) rs) cs ≡ true
    → total_votes (tally_rows rs vs cs) ≡ votes_of vs cs
unfolding tally_rows total_votes votes_of
tally_rows-total rs vs [] h = refl
tally_rows-total rs vs (c ∷ cs) h = elim (Option-cases (find (has_region_id c.region_id) rs)) [
  | inl absent ↦ absurd (ground (arith, find-none (has_region_id c.region_id) rs absent))
  | inr (r, found) ↦ ground (arith, found, tally_rows-total rs vs cs)
]

votes_of-none : (cs : List Candidate) → votes_of [] cs ≡ 0
unfolding votes_of
votes_of-none [] = refl
votes_of-none (c ∷ cs) = ground (arith, votes_of-none cs)

votes_of-cons :
    (v : Vote) (vs : List Vote) (cs : List Candidate)
    → votes_of (v ∷ vs) cs ≡ count (λ c. is_vote_for c v) cs + votes_of vs cs
unfolding votes_of
votes_of-cons v vs [] = refl
votes_of-cons v vs (c ∷ cs) = ground (arith, votes_of-cons v vs cs)

module _ (name_lt : Text → Text → Bool) where
  insert-total :
      (x : Tally) (xs : List Tally) → total_votes (insert name_lt x xs) ≡ x.votes + total_votes xs
  unfolding total_votes insert
  insert-total x [] = refl
  insert-total x (y ∷ ys) = ground (arith, insert-total x ys)

  order_by-total : (xs : List Tally) → total_votes (order_by name_lt xs) ≡ total_votes xs
  unfolding total_votes order_by
  order_by-total [] = refl
  order_by-total (x ∷ xs) = insert-total x (order_by name_lt xs) ∙ ground (arith, order_by-total xs)

  -- Each row precedes the next.
  unfoldable pub is_sorted : List Tally → Bool
  is_sorted [] = true
  is_sorted (x ∷ []) = true
  is_sorted (x ∷ y ∷ xs) = precedes name_lt x y && is_sorted (y ∷ xs)

  precedes_total : (x y : Tally) → precedes name_lt x y ≡ false → precedes name_lt y x ≡ true
  unfolding precedes
  precedes_total x y h = ground arith

  insert-is_sorted :
      (x : Tally) (xs : List Tally) → is_sorted xs ≡ true → is_sorted (insert name_lt x xs) ≡ true
  unfolding insert is_sorted
  insert-is_sorted x [] h = refl
  insert-is_sorted x (y ∷ []) h = ground (arith, precedes_total x y)
  insert-is_sorted x (y ∷ z ∷ ys) h =
      ground (arith, precedes_total x y, insert-is_sorted x (z ∷ ys))

  order_by-is_sorted : (xs : List Tally) → is_sorted (order_by name_lt xs) ≡ true
  unfolding order_by is_sorted
  order_by-is_sorted [] = refl
  order_by-is_sorted (x ∷ xs) = insert-is_sorted x (order_by name_lt xs) (order_by-is_sorted xs)

-- Every vote is for exactly one candidate, of its own election.
abbrev pub all_for_one : List Candidate → List Vote → Bool
all_for_one cs = all (λ (v : Vote). count (λ c. is_vote_for c v) cs == 1)

-- Every candidate has a region.
abbrev pub all_in_regions : List Region → List Candidate → Bool
all_in_regions rs = all (λ (c : Candidate). any (has_region_id c.region_id) rs)

abbrev pub in_number : ℤ → Candidate → Bool
in_number z c = is_id z c.election_id

all-select {ℓ} :
    {A : Type ℓ} (p q : A → Bool) (xs : List A) → all p xs ≡ true → all p (select q xs) ≡ true
all-select p q [] h = refl
all-select p q (x ∷ xs) h = ground (arith, all-select p q xs)

count-roster :
    (z : ℤ) (v : Vote) (cs : List Candidate)
    → count (λ c. is_vote_for c v) (select (in_number z) cs)
      ≡ (if is_id z v.election_id then count (λ c. is_vote_for c v) cs else 0)
count-roster z v [] = ground arith
count-roster z v (c ∷ cs) = ground (arith, count-roster z v cs)

votes_of-count :
    (z : ℤ) (cs : List Candidate) (vs : List Vote)
    → all_for_one cs vs ≡ true
    → votes_of vs (select (in_number z) cs) ≡ count (λ (v : Vote). is_id z v.election_id) vs
votes_of-count z cs [] h = votes_of-none (select (in_number z) cs)
votes_of-count z cs (v ∷ vs) h =
    votes_of-cons v vs (select (in_number z) cs)
    ∙ ground (arith, count-roster z v cs, votes_of-count z cs vs)

pub get_vote_tallies-total :
    (name_lt : Text → Text → Bool) (z : ℤ) (s : Store) (rows : List Tally)
    → all_for_one s.candidates s.votes ≡ true
    → all_in_regions s.regions s.candidates ≡ true
    → get_vote_tallies name_lt true (Json.int z) s ≡ tallies rows
    → (total_votes rows ≡ count (λ (v : Vote). is_id z v.election_id) s.votes)
      × (is_sorted name_lt rows ≡ true)
unfolding get_vote_tallies to_int
get_vote_tallies-total name_lt z s rows one regions h =
    let roster = select (in_number z) s.candidates in
    let same : order_by name_lt (tally_rows s.regions s.votes roster) ≡ rows = ground arith in
    (
      rw (← same) (
          order_by-total name_lt (tally_rows s.regions s.votes roster)
          ∙ (tally_rows-total s.regions s.votes roster (
                all-select (λ (c : Candidate). any (has_region_id c.region_id) s.regions)
                  (in_number z) s.candidates regions)
              ∙ votes_of-count z s.candidates s.votes one)),
      rw (← same) (order_by-is_sorted name_lt (tally_rows s.regions s.votes roster)),
    )
