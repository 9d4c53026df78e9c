-- ===== src/Ballots/Issued.antt =====
-- What `request_blind_token` does to the database, and what its answer shows.
use secure_voting_platform.Prelude.{
  ℕ, suc, Bool, true, false, not, ◌≡◌, refl, sym, ap, Option, some, ◌∷◌, ◌==◌, any, find, select,
  count, any-count, find-holds, arith, inl, inr, ◌⊎◌,
}
use secure_voting_platform.Prelude.Int.{ℤ}
use secure_voting_platform.Prelude.Text.{Text, codes}
use mathlib.Core.Path.{subst}
use secure_voting_platform.Json.{Json}
use secure_voting_platform.Models.{
  Store, User, ElectoralRoll, Election, is_open, in_election, has_receipt, has_token, owns,
  insert_token, record_audit_event,
}
use secure_voting_platform.Keys.{PublicKey, Attempt}
use secure_voting_platform.Outcome.{
  commit-Atomic, Atomic, commit-eq-done, Atomic-refuse, Outcome, done, refuse, Refusal, Server,
  >>=-eq-done,
}
use secure_voting_platform.Voters.{
  lock_and_validate_voter, is_single_contest, covers_region, is_eligible,
}
use secure_voting_platform.Ballots.Authorize.{
  token_request, blinded_ballot, find_election, open_election_of, eligible_in, not_yet_authorized,
  Grant, grant, record_authorization, sign_grant, finish_grant, run_grant, request_blind_token,
  signed,
}

-- The voter may hold an authorization for the election: eligible, enrolled in the one region of a
-- single-contest roster, and with no earlier authorization or direct ballot.
pub record MayVote (u : User) (e : Election) (s : Store) : Type 0 where
  pub enrolment : ElectoralRoll
  pub enrolled : find (owns u.id) s.rolls ≡ some enrolment
  pub eligible : is_eligible u enrolment ≡ true
  pub single : is_single_contest (select (in_election e.id) s.candidates) ≡ true
  pub region : covers_region enrolment.region_id (select (in_election e.id) s.candidates) ≡ true
  pub no_token : any (has_token u.id e.id) s.tokens ≡ false
  pub no_receipt : any (has_receipt u.id e.id) s.receipts ≡ false

not-false : (b : Bool) → not b ≡ false → b ≡ true
not-false true h = refl
not-false false h = cc

pub open_election_of-eq-done :
    (now : ℕ) (z : ℤ) (s : Store) {e : Election}
    → open_election_of now z s ≡ done e
    → (find_election z s ≡ some e) × (is_open now e ≡ true)
unfolding open_election_of
open_election_of-eq-done now z s {e} h = (ground arith, ground arith)

pub lock_and_validate_voter-eq-done :
    (uid : ℕ) (s : Store) {u : User} {e : ElectoralRoll}
    → lock_and_validate_voter uid s ≡ done (u, e)
    → (find (λ x. x.id == uid) s.users ≡ some u)
      × (find (owns u.id) s.rolls ≡ some e)
      × (is_eligible u e ≡ true)
unfolding lock_and_validate_voter
lock_and_validate_voter-eq-done uid s {u} {e} h = (ground arith, ground arith, ground arith)

lock_cases :
    (uid : ℕ) (s : Store)
    → ((u : User) × (e : ElectoralRoll) × (lock_and_validate_voter uid s ≡ done (u, e)))
      ⊎ ((r : Refusal) × (lock_and_validate_voter uid s ≡ refuse r))
lock_cases uid s = outcome_cases (lock_and_validate_voter uid s)
  where
    outcome_cases :
        (o : Outcome (User × ElectoralRoll))
        → ((u : User) × (e : ElectoralRoll) × (o ≡ done (u, e))) ⊎ ((r : Refusal) × (o ≡ refuse r))
    outcome_cases (done (u, e)) = inl (u, e, refl)
    outcome_cases (refuse r) = inr (r, refl)

pub eligible_in-MayVote :
    (uid : ℕ) (e : Election) (s : Store) {u : User}
    → eligible_in uid e s ≡ done u
    → not_yet_authorized u e s ≡ done tt
    → (find (λ x. x.id == uid) s.users ≡ some u) × MayVote u e s
unfolding eligible_in not_yet_authorized
eligible_in-MayVote uid e s {u} h k = elim (lock_cases uid s) [
  | inl (v, enrolment, locked) ↦
      let (found, enrolled, eligible) = lock_and_validate_voter-eq-done uid s locked in
      let h' = rw locked at h in
      let same : v ≡ u = ground arith in
      (
        rw (← same) found,
        record {
          enrolment = enrolment;
          enrolled = rw (← same) enrolled;
          eligible = rw (← same) eligible;
          single = ground arith;
          region = ground arith;
          no_token = ground arith;
          no_receipt = ground arith;
        },
      )
  | inr (r, locked) ↦ absurd (cc (rw locked at h))
]

-- Everything that a grant shows.
pub record Granted (now uid : ℕ) (body : Option Json) (s : Store) (g : Grant) : Type 0 where
  pub named : ℤ
  pub asked : token_request body ≡ done named
  pub found : find_election named s ≡ some g.election
  pub opened : is_open now g.election ≡ true
  pub user_found : find (λ x. x.id == uid) s.users ≡ some g.user
  pub may_vote : MayVote g.user g.election s

pub grant-Granted :
    (now uid : ℕ) (body : Option Json) (s : Store) {g : Grant}
    → grant now uid body s ≡ done g
    → Granted now uid body s g
unfolding grant
grant-Granted now uid body s {g} h =
    let (z, asked, rest) = >>=-eq-done (token_request body) _ h in
    let (e, opened, rest') = >>=-eq-done (open_election_of now z s) _ rest in
    let (u, eligible, rest'') = >>=-eq-done (eligible_in uid e s) _ rest' in
    let (b, blinded, rest''') = >>=-eq-done (blinded_ballot body) _ rest'' in
    let (_, fresh, same) = >>=-eq-done (not_yet_authorized u e s) _ rest''' in
    let (found, is_o) = open_election_of-eq-done now z s opened in
    let (user_found, may) = eligible_in-MayVote uid e s eligible fresh in
    facts g (record { election = e; user = u; blinded = b }) (cc same) asked found is_o user_found
      may
  where
    facts :
        (g g' : Grant)
        → g' ≡ g
        → {z : ℤ} → token_request body ≡ done z
        → find_election z s ≡ some g'.election
        → is_open now g'.election ≡ true
        → find (λ x. x.id == uid) s.users ≡ some g'.user
        → MayVote g'.user g'.election s
        → Granted now uid body s g
    facts g g' e {z} asked found opened user_found may = subst (Granted now uid body s) e (record {
      named = z;
      asked = asked;
      found = found;
      opened = opened;
      user_found = user_found;
      may_vote = may;
    })

-- The database after an authorization: one new row, which holds the user and the election only, and
-- one audit event.
abbrev pub authorized : User → Election → Store → Store
authorized u e s = record s {
  tokens = record { id = s.next_id; user_id = u.id; election_id = e.id } ∷ s.tokens;
  next_id = suc s.next_id;
  audit =
      record {
        actor = some u.id;
        action = codes "ballot_authorization.issue";
        target_type = codes "election";
        target_id = e.id;
      }
      ∷ s.audit;
}

record_authorization-eq-done :
    (u : User) (e : Election) (s : Store) {d : Store}
    → record_authorization u e s ≡ done d
    → d ≡ authorized u e s
unfolding record_authorization insert_token record_audit_event
record_authorization-eq-done u e s {d} h = ground arith

module _ (fingerprint : PublicKey → Text) (attempt : Attempt) where
  finish_grant-eq-done :
      (g : Grant) (o : Outcome ℕ) (s t : Server) {signature id : ℕ}
      → finish_grant fingerprint attempt g (o, s) ≡ (done (signature, id), t)
      → (id ≡ g.election.id) × (record_authorization g.user g.election s.db ≡ done t.db)
  finish_grant-eq-done g (refuse r) s t h = absurd (cc h)
  finish_grant-eq-done g (done a) s t h =
      let (answer, stored) = commit-eq-done (a, g.election.id) _ s t h in
      (sym (ap (λ p. p.1) answer), stored)

  run_grant-eq-done :
      (o : Outcome Grant) (s t : Server) {signature id : ℕ}
      → run_grant fingerprint attempt o s ≡ (done (signature, id), t)
      → (g : Grant) × (o ≡ done g)
        × (id ≡ g.election.id)
        × (record_authorization g.user g.election s.db ≡ done t.db)
  run_grant-eq-done (refuse r) s t h = absurd (cc h)
  run_grant-eq-done (done g) s t h =
      let (r, k) = sign_grant fingerprint attempt g s.keys in
      let (answer, stored) = finish_grant-eq-done g (signed r) (record s { keys = k }) t h in
      (g, refl, answer, stored)

  -- An answered request.
  pub request_blind_token-eq-done :
      (now uid : ℕ) (body : Option Json) (s t : Server) {signature id : ℕ}
      → request_blind_token fingerprint attempt now uid body s ≡ (done (signature, id), t)
      → (g : Grant) × Granted now uid body s.db g
        × (id ≡ g.election.id)
        × (t.db ≡ authorized g.user g.election s.db)
  unfolding request_blind_token
  request_blind_token-eq-done now uid body s t h =
      let (g, granted, answer, stored) = run_grant-eq-done (grant now uid body s.db) s t h in
      (
        g,
        grant-Granted now uid body s.db granted,
        answer,
        record_authorization-eq-done g.user g.election s.db stored,
      )

  finish_grant-Atomic :
      (g : Grant) (o : Outcome ℕ) (s : Server)
      → Atomic s.db (finish_grant fingerprint attempt g (o, s))
  finish_grant-Atomic g (done a) s = commit-Atomic _ (record_authorization g.user g.election s.db) s
  finish_grant-Atomic g (refuse r) s = refl

  run_grant-Atomic :
      (o : Outcome Grant) (s : Server) → Atomic s.db (run_grant fingerprint attempt o s)
  run_grant-Atomic (refuse r) s = refl
  run_grant-Atomic (done g) s =
      let (r, k) = sign_grant fingerprint attempt g s.keys in
      finish_grant-Atomic g (signed r) (record s { keys = k })

  -- What `commit` rolls back: a refused authorization leaves the database as it was.
  pub request_blind_token-Atomic :
      (now uid : ℕ) (body : Option Json) (s t : Server) (r : Refusal)
      → request_blind_token fingerprint attempt now uid body s ≡ (refuse r, t)
      → t.db ≡ s.db
  unfolding request_blind_token
  request_blind_token-Atomic now uid body s t r h =
      Atomic-refuse s.db _ (run_grant-Atomic (grant now uid body s.db) s) h

  -- An answered request is for a user and an election that exist, the election is open at that
  -- time and the user eligible for it. The user held no authorization and no receipt for it before
  -- and holds exactly one authorization after; votes, nullifiers and receipts are untouched.
  pub request_blind_token-once :
      (now uid : ℕ) (body : Option Json) (s t : Server) (signature id : ℕ)
      → request_blind_token fingerprint attempt now uid body s ≡ (done (signature, id), t)
      → (e : Election) × (u : User) × ((e.id ≡ id) × (u.id ≡ uid) × (is_open now e ≡ true))
        × MayVote u e s.db
        × (count (has_token uid id) s.db.tokens ≡ 0)
        × (count (has_receipt uid id) s.db.receipts ≡ 0)
        × (count (has_token uid id) t.db.tokens ≡ 1)
        × ((t.db.votes ≡ s.db.votes)
            × (t.db.nullifiers ≡ s.db.nullifiers)
            × (t.db.receipts ≡ s.db.receipts))
  request_blind_token-once now uid body s t signature id h =
      let (g, granted, answer, stored) = request_blind_token-eq-done now uid body s t h in
      let owner : g.user.id ≡ uid = ground (
        arith,
        find-holds (λ (x : User). x.id == uid) s.db.users {a = g.user} granted.user_found,
      ) in
      let none_before : count (has_token uid id) s.db.tokens ≡ 0 =
        rw (answer, ← owner) (any-count _ s.db.tokens granted.may_vote.no_token) in
      (
        g.election,
        g.user,
        (sym answer, owner, granted.opened),
        granted.may_vote,
        none_before,
        rw (answer, ← owner) (any-count _ s.db.receipts granted.may_vote.no_receipt),
        rw stored (ground (arith, none_before)),
        (rw stored refl, rw stored refl, rw stored refl),
      )

  -- Two answered requests of one user for one election, with any blinded ballots, leave the same
  -- database: nothing that derives from the ballot is stored beside the voter's identity.
  pub request_blind_token-unlinkable :
      (now uid : ℕ) (body body' : Option Json) (s t t' : Server) (signature signature' id : ℕ)
      → request_blind_token fingerprint attempt now uid body s ≡ (done (signature, id), t)
      → request_blind_token fingerprint attempt now uid body' s ≡ (done (signature', id), t')
      → t.db ≡ t'.db
  request_blind_token-unlinkable now uid body body' s t t' signature signature' id h h' =
      let (g, granted, answer, stored) = request_blind_token-eq-done now uid body s t h in
      let (g', granted', answer', stored') = request_blind_token-eq-done now uid body' s t' h' in
      let owner : g.user ≡ g'.user = ground (arith, granted.user_found, granted'.user_found) in
      rw (stored, stored', owner, ← answer, ← answer') refl
