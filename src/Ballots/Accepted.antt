-- ===== src/Ballots/Accepted.antt =====
-- What `cast_anonymous_ballot` does to the database (app/routes/main.py).
use secure_voting_platform.Prelude.{
  any-count, find-holds, count, ℕ, suc, Bool, true, false, ◌&&◌, ◌≡◌, ◌≢◌, refl, ap, ◌∙◌, Option,
  none, some, ◌∷◌, ◌==◌, any, find, select, arith,
}
use secure_voting_platform.Prelude.Int.{ℤ, pos, negsuc, is_id}
use secure_voting_platform.Prelude.Text.{text_eq_refl, Text, codes, text_eq}
use secure_voting_platform.Json.{Json}
use secure_voting_platform.Models.{
  Store, Election, Candidate, Vote, is_open, in_election, has_nullifier, insert_vote,
  insert_nullifier, record_audit_event,
}
use secure_voting_platform.Keys.{
  PublicKey, Attempt, KeyResult, ok, key_error, value_error, os_error,
}
use secure_voting_platform.Outcome.{
  commit-Atomic, Atomic-refuse, Atomic, Refusal, Outcome, done, refuse, Server, >>=-eq-done,
  commit-eq-done,
}
use secure_voting_platform.Voters.{is_single_contest}
use secure_voting_platform.Ballots.Authorize.{find_election, open_election_of}
use secure_voting_platform.Ballots.Issued.{open_election_of-eq-done}
use secure_voting_platform.Ballots.Cast.{
  Runtime, Ballot, parse_ballot, nonce_hash, vote_hash, chosen_candidate, record_ballot,
  check_ballot, verified, accept, finish_cast, run_cast, read_cast, cast_anonymous_ballot,
}

ids_agree : (z : ℤ) (m n : ℕ) → is_id z m ≡ true → is_id z n ≡ true → m ≡ n
ids_agree (pos k) m n h h' = ground arith
ids_agree (negsuc k) m n h h' = absurd (cc h)

module _ (rt : Runtime) where
  abbrev pub new_vote : ℕ → Text → Election → Candidate → Store → Vote
  new_vote now token e c s = record {
    id = s.next_id;
    voter_token = token;
    candidate_id = c.id;
    election_id = e.id;
    position = c.position;
    vote_hash = vote_hash rt token e.id c.id now;
    created_at = now;
  }

  -- The database after a ballot: one vote, one nullifier and an audit event that names nobody.
  abbrev pub accepted : ℕ → Text → Text → Election → Candidate → Store → Store
  accepted now token nonce e c s = record s {
    votes = new_vote now token e c s ∷ s.votes;
    nullifiers =
        record {
          id = suc s.next_id;
          election_id = e.id;
          nullifier_hash = nonce_hash rt nonce;
          spent_at = now;
        }
        ∷ s.nullifiers;
    next_id = suc (suc s.next_id);
    audit =
        record {
          actor = none;
          action = codes "ballot.cast";
          target_type = codes "election";
          target_id = e.id;
        }
        ∷ s.audit;
  }

  record_ballot-eq-done :
      (now : ℕ) (token nonce : Text) (e : Election) (c : Candidate) (s : Store) {d : Store}
      → record_ballot rt now token nonce e c s ≡ done d
      → (any (has_nullifier e.id (nonce_hash rt nonce)) s.nullifiers ≡ false)
        × (any (λ (w : Vote). text_eq w.voter_token token) s.votes ≡ false)
        × (d ≡ accepted now token nonce e c s)
  unfolding record_ballot insert_vote insert_nullifier record_audit_event
  record_ballot-eq-done now token nonce e c s {d} h = (ground arith, ground arith, ground arith)

  chosen_candidate-eq-done :
      (z : ℤ) (e : Election) (s : Store) {c : Candidate}
      → chosen_candidate rt z e s ≡ done c
      → (find (λ (x : Candidate). is_id z x.id && (x.election_id == e.id)) s.candidates ≡ some c)
        × (is_single_contest (select (in_election e.id) s.candidates) ≡ true)
  unfolding chosen_candidate
  chosen_candidate-eq-done z e s {c} h = (ground arith, ground arith)

  -- Everything that an accepted ballot shows.
  pub record Accepted (now : ℕ) (token : Text) (body : Option Json) (s d : Store) (b : Ballot)
      (e : Election) (c : Candidate) : Type 0 where
    pub parsed : parse_ballot rt body ≡ done b
    pub found : find_election b.election_id s ≡ some e
    pub opened : is_open now e ≡ true
    pub chosen :
        find (λ (x : Candidate). is_id b.candidate_id x.id && (x.election_id == e.id)) s.candidates
        ≡ some c
    pub single : is_single_contest (select (in_election e.id) s.candidates) ≡ true
    pub unspent : any (has_nullifier e.id (nonce_hash rt b.nonce)) s.nullifiers ≡ false
    pub new_token : any (λ (w : Vote). text_eq w.voter_token token) s.votes ≡ false
    pub stored : d ≡ accepted now token b.nonce e c s

  module _ (fingerprint : PublicKey → Text) (attempt : Attempt) where
    accept-eq-done :
        (now : ℕ) (token : Text) (b : Ballot) (e : Election) (valid : Bool) (s : Store) {d : Store}
        → accept rt fingerprint attempt now token b e valid s ≡ done d
        → (valid ≡ true)
          × (c : Candidate) × (chosen_candidate rt b.candidate_id e s ≡ done c)
          × (record_ballot rt now token b.nonce e c s ≡ done d)
    unfolding accept
    accept-eq-done now token b e true s h =
        let (c, chosen, recorded) = >>=-eq-done (chosen_candidate rt b.candidate_id e s) _ h in
        (refl, c, chosen, recorded)
    accept-eq-done now token b e false s h = absurd (cc h)

    verified-eq-done :
        (r : KeyResult Bool) {a : Bool} → verified rt fingerprint attempt r ≡ done a → r ≡ ok a
    verified-eq-done (ok b) h = cc
    verified-eq-done (key_error x) h = absurd (cc h)
    verified-eq-done value_error h = absurd (cc h)
    verified-eq-done os_error h = absurd (cc h)

    finish_cast-eq-done :
        (now : ℕ) (token : Text) (b : Ballot) (e : Election) (o : Outcome Bool) (s t : Server)
        → finish_cast rt fingerprint attempt now token b e (o, s) ≡ (done tt, t)
        → (valid : Bool) × (o ≡ done valid)
          × (accept rt fingerprint attempt now token b e valid s.db ≡ done t.db)
    finish_cast-eq-done now token b e (refuse r) s t h = absurd (cc h)
    finish_cast-eq-done now token b e (done valid) s t h =
        (valid, refl, (commit-eq-done tt _ s t h).1)

    read_cast-eq-done :
        (now : ℕ) (body : Option Json) (s : Store) {b : Ballot} {e : Election}
        → read_cast rt fingerprint attempt now body s ≡ done (b, e)
        → (parse_ballot rt body ≡ done b) × (open_election_of now b.election_id s ≡ done e)
    unfolding read_cast
    read_cast-eq-done now body s {b} {e} h = (ground arith, ground arith)

    -- An accepted ballot: its signature was verified under the key of its own election.
    pub cast_anonymous_ballot-eq-done :
        (now : ℕ) (token : Text) (body : Option Json) (s t : Server)
        → cast_anonymous_ballot rt fingerprint attempt now token body s ≡ (done tt, t)
        → (b : Ballot) × (e : Election) × (c : Candidate) × ((check_ballot rt fingerprint attempt b
              e s.keys).0
            ≡ ok true)
          × Accepted now token body s.db t.db b e c
    unfolding cast_anonymous_ballot
    cast_anonymous_ballot-eq-done now token body s t h =
        go (read_cast rt fingerprint attempt now body s.db) refl h
      where
        go :
            (o : Outcome (Ballot × Election))
            → read_cast rt fingerprint attempt now body s.db ≡ o
            → run_cast rt fingerprint attempt now token o s ≡ (done tt, t)
            → (b : Ballot) × (e : Election) × (c : Candidate) × ((check_ballot rt fingerprint
                  attempt b e s.keys).0
                ≡ ok true)
              × Accepted now token body s.db t.db b e c
        go (refuse r) eq h = absurd (cc h)
        go (done (b, e)) eq h =
            let (r, k) = check_ballot rt fingerprint attempt b e s.keys in
            let (valid, checked, kept) =
              finish_cast-eq-done now token b e (verified rt fingerprint attempt r)
                (record s { keys = k }) t h in
            let (is_true, c, chosen, recorded) = accept-eq-done now token b e valid s.db kept in
            let (parsed, opened) = read_cast-eq-done now body s.db eq in
            let (found, is_o) = open_election_of-eq-done now b.election_id s.db opened in
            let (listed, single) = chosen_candidate-eq-done b.candidate_id e s.db chosen in
            let (unspent, fresh, stored) =
              record_ballot-eq-done now token b.nonce e c s.db recorded in
            (
              b,
              e,
              c,
              verified-eq-done r checked ∙ ap ok is_true,
              record {
                parsed = parsed;
                found = found;
                opened = is_o;
                chosen = listed;
                single = single;
                unspent = unspent;
                new_token = fresh;
                stored = stored;
              },
            )

    finish_cast-Atomic :
        (now : ℕ) (token : Text) (b : Ballot) (e : Election) (o : Outcome Bool) (s : Server)
        → Atomic s.db (finish_cast rt fingerprint attempt now token b e (o, s))
    finish_cast-Atomic now token b e (done valid) s =
        commit-Atomic tt (accept rt fingerprint attempt now token b e valid s.db) s
    finish_cast-Atomic now token b e (refuse r) s = refl

    run_cast-Atomic :
        (now : ℕ) (token : Text) (o : Outcome (Ballot × Election)) (s : Server)
        → Atomic s.db (run_cast rt fingerprint attempt now token o s)
    run_cast-Atomic now token (refuse r) s = refl
    run_cast-Atomic now token (done (b, e)) s =
        let (r, k) = check_ballot rt fingerprint attempt b e s.keys in
        finish_cast-Atomic now token b e (verified rt fingerprint attempt r) (record s { keys = k })

    -- What `commit` rolls back: a refused ballot leaves the database as it was.
    pub cast_anonymous_ballot-Atomic :
        (now : ℕ) (token : Text) (body : Option Json) (s t : Server) (r : Refusal)
        → cast_anonymous_ballot rt fingerprint attempt now token body s ≡ (refuse r, t)
        → t.db ≡ s.db
    unfolding cast_anonymous_ballot
    cast_anonymous_ballot-Atomic now token body s t r h =
        Atomic-refuse s.db _
          (run_cast-Atomic now token (read_cast rt fingerprint attempt now body s.db) s) h

    -- An accepted ballot was signed for its own election, which is open at that time and has the
    -- candidate on its single-contest roster. It adds one vote for that candidate and one
    -- nullifier, which no row held before, and touches no authorization, receipt or user.
    pub cast_anonymous_ballot-counts :
        (now : ℕ) (token : Text) (body : Option Json) (s t : Server)
        → cast_anonymous_ballot rt fingerprint attempt now token body s ≡ (done tt, t)
        → (b : Ballot) × (e : Election) × (c : Candidate) × ((parse_ballot rt body ≡ done b)
            × ((check_ballot rt fingerprint attempt b e s.keys).0 ≡ ok true)
            × (is_id b.election_id e.id ≡ true)
            × (is_id b.candidate_id c.id ≡ true)
            × (is_open now e ≡ true)
            × (c.election_id ≡ e.id)
            × (is_single_contest (select (in_election e.id) s.db.candidates) ≡ true))
          × ((v : Vote) × (t.db.votes ≡ v ∷ s.db.votes)
              × (v.candidate_id ≡ c.id)
              × (v.election_id ≡ e.id))
          × (count (has_nullifier e.id (nonce_hash rt b.nonce)) s.db.nullifiers ≡ 0)
          × (count (has_nullifier e.id (nonce_hash rt b.nonce)) t.db.nullifiers ≡ 1)
          × ((t.db.tokens ≡ s.db.tokens)
              × (t.db.receipts ≡ s.db.receipts)
              × (t.db.users ≡ s.db.users))
    cast_anonymous_ballot-counts now token body s t h =
        let (b, e, c, checked, a) = cast_anonymous_ballot-eq-done now token body s t h in
        let chosen = find-holds _ s.db.candidates {a = c} a.chosen in
        let before : count (has_nullifier e.id (nonce_hash rt b.nonce)) s.db.nullifiers ≡ 0 =
          any-count _ s.db.nullifiers a.unspent in
        (
          b,
          e,
          c,
          (
            a.parsed,
            checked,
            find-holds _ s.db.elections {a = e} a.found,
            ground arith,
            a.opened,
            ground arith,
            a.single,
          ),
          (new_vote now token e c s.db, rw a.stored refl, refl, refl),
          before,
          rw a.stored (ground (arith, before, text_eq_refl (nonce_hash rt b.nonce))),
          (rw a.stored refl, rw a.stored refl, rw a.stored refl),
        )

    -- A ballot is accepted once: after it was, no request with the same nonce and election is
    -- accepted, at whatever time, with whatever candidate and in whatever later state whose
    -- nullifiers still hold those of the first.
    pub cast_anonymous_ballot-replay :
        (now now' : ℕ) (token token' : Text) (body body' : Option Json) (s t u v : Server)
        (b b' : Ballot)
        → cast_anonymous_ballot rt fingerprint attempt now token body s ≡ (done tt, t)
        → parse_ballot rt body ≡ done b
        → parse_ballot rt body' ≡ done b'
        → b'.nonce ≡ b.nonce
        → b'.election_id ≡ b.election_id
        → ((id : ℕ) (n : Text)
            → any (has_nullifier id n) t.db.nullifiers ≡ true
            → any (has_nullifier id n) u.db.nullifiers ≡ true)
        → cast_anonymous_ballot rt fingerprint attempt now' token' body' u ≢ (done tt, v)
    cast_anonymous_ballot-replay now now' token token' body body' s t u v b b' h parsed parsed'
          same_nonce same_id kept again =
        let (b₁, e, c, _, a) = cast_anonymous_ballot-eq-done now token body s t h in
        let (b₂, e', c', _, a') = cast_anonymous_ballot-eq-done now' token' body' u v again in
        let first : b₁ ≡ b = ground (arith, a.parsed) in
        let second : b₂ ≡ b' = ground (arith, a'.parsed) in
        let spent =
          kept e.id (nonce_hash rt b.nonce)
            (rw (a.stored, first) (ground (arith, text_eq_refl (nonce_hash rt b.nonce)))) in
        let named =
          find-holds (λ (x : Election). is_id b₁.election_id x.id) s.db.elections {a = e} a.found in
        let named' =
          find-holds (λ (x : Election). is_id b₂.election_id x.id) u.db.elections {a = e'}
            a'.found in
        let same : e'.id ≡ e.id =
          ids_agree b.election_id e'.id e.id (rw (second, same_id) at named') (rw first at named) in
        ground (arith, spent, rw (second, same_nonce, same) at a'.unspent)
