-- ===== src/Ballots/Sequences.antt =====
-- Sequences of requests to the ballot protocol (app/routes/main.py), answered or refused.
use secure_voting_platform.Prelude.{
  ℕ, suc, ◌≤◌, true, ◌&&◌, ◌≡◌, refl, sym, Option, List, [], ◌∷◌, ◌==◌, count, any-count, arith,
  inl, inr, Bool-cases,
}
use secure_voting_platform.Prelude.Text.{text_eq, text_eq_iff, Text}
use mathlib.Core.Path.{subst}
use secure_voting_platform.Json.{Json}
use secure_voting_platform.Models.{Store, Vote, SpentBallotNullifier, has_token, has_nullifier}
use secure_voting_platform.Keys.{PublicKey, Attempt}
use secure_voting_platform.Outcome.{Outcome, done, refuse, Server}
use secure_voting_platform.Ballots.Authorize.{request_blind_token}
use secure_voting_platform.Ballots.Cast.{Runtime, cast_anonymous_ballot, nonce_hash}
use secure_voting_platform.Ballots.Issued.{request_blind_token-eq-done, request_blind_token-Atomic}
use secure_voting_platform.Ballots.Accepted.{
  cast_anonymous_ballot-eq-done, cast_anonymous_ballot-Atomic,
}

pub data Request : Type 0 where
  authorize : (now uid : ℕ) (body : Option Json) (attempt : Attempt) → Request
  cast : (now : ℕ) (token : Text) (body : Option Json) (attempt : Attempt) → Request

abbrev pub votes_in : ℕ → Store → ℕ
votes_in eid s = count (λ (v : Vote). v.election_id == eid) s.votes

abbrev pub nullifiers_in : ℕ → Store → ℕ
nullifiers_in eid s = count (λ (n : SpentBallotNullifier). n.election_id == eid) s.nullifiers

-- What holds between requests, for a voter, an election and a nonce.
pub record IsSound (uid eid : ℕ) (h : Text) (s : Store) : Type 0 where
  pub one_token : count (has_token uid eid) s.tokens ≤ 1
  pub one_nullifier : count (has_nullifier eid h) s.nullifiers ≤ 1
  pub balanced : votes_in eid s ≡ nullifiers_in eid s

same_nullifier :
    (eid other : ℕ) (h k : Text) (ns : List SpentBallotNullifier)
    → ((other == eid) && text_eq k h) ≡ true
    → count (has_nullifier other k) ns ≡ 0
    → count (has_nullifier eid h) ns ≡ 0
same_nullifier eid other h k ns same fresh =
    let ids : other ≡ eid = ground arith in
    let texts : k ≡ h = (text_eq_iff k h).0 (ground arith) in rw (← ids, ← texts) fresh

nullifier-bound :
    (eid : ℕ) (h : Text) (n : SpentBallotNullifier) (ns : List SpentBallotNullifier)
    → count (has_nullifier eid h) ns ≤ 1
    → count (has_nullifier n.election_id n.nullifier_hash) ns ≡ 0
    → count (has_nullifier eid h) (n ∷ ns) ≤ 1
nullifier-bound eid h n ns once fresh = elim (Bool-cases (has_nullifier eid h n)) [
  | inr other ↦ ground (arith, other, once)
  | inl same ↦
      ground (arith, same, same_nullifier eid n.election_id h n.nullifier_hash ns same fresh)
]

module _ (rt : Runtime) (fingerprint : PublicKey → Text) where
  -- The server after a request.
  unfoldable pub serve : Request → Server → Server
  serve (Request.authorize now uid body attempt) s =
      (request_blind_token fingerprint attempt now uid body s).1
  serve (Request.cast now token body attempt) s =
      (cast_anonymous_ballot rt fingerprint attempt now token body s).1

  unfoldable pub run : List Request → Server → Server
  run [] s = s
  run (r ∷ rs) s = run rs (serve r s)

  authorize-IsSound :
      (uid eid : ℕ) (h : Text) (now who : ℕ) (body : Option Json) (attempt : Attempt) (s t : Server)
      (o : Outcome (ℕ × ℕ))
      → request_blind_token fingerprint attempt now who body s ≡ (o, t)
      → IsSound uid eid h s.db
      → IsSound uid eid h t.db
  authorize-IsSound uid eid h now who body attempt s t (refuse r) eq ok =
      subst (IsSound uid eid h)
        (sym (request_blind_token-Atomic fingerprint attempt now who body s t r eq)) ok
  authorize-IsSound uid eid h now who body attempt s t (done (signature, id)) eq ok =
      let (g, granted, answer, stored) =
        request_blind_token-eq-done fingerprint attempt now who body s t eq in
      let fresh =
        any-count (has_token g.user.id g.election.id) s.db.tokens granted.may_vote.no_token in
      record {
        one_token = rw stored (ground (arith, fresh, ok.one_token));
        one_nullifier = rw stored ok.one_nullifier;
        balanced = rw stored ok.balanced;
      }

  cast-IsSound :
      (uid eid : ℕ) (h : Text) (now : ℕ) (token : Text) (body : Option Json) (attempt : Attempt)
      (s t : Server) (o : Outcome (Unit {0}))
      → cast_anonymous_ballot rt fingerprint attempt now token body s ≡ (o, t)
      → IsSound uid eid h s.db
      → IsSound uid eid h t.db
  cast-IsSound uid eid h now token body attempt s t (refuse r) eq ok =
      subst (IsSound uid eid h)
        (sym (cast_anonymous_ballot-Atomic rt fingerprint attempt now token body s t r eq)) ok
  cast-IsSound uid eid h now token body attempt s t (done tt) eq ok =
      let (b, e, c, checked, a) =
        cast_anonymous_ballot-eq-done rt fingerprint attempt now token body s t eq in
      let fresh =
        any-count (has_nullifier e.id (nonce_hash rt b.nonce)) s.db.nullifiers a.unspent in
      record {
        one_token = rw a.stored ok.one_token;
        one_nullifier = rw a.stored (
            nullifier-bound eid h
              (record {
                id = suc s.db.next_id;
                election_id = e.id;
                nullifier_hash = nonce_hash rt b.nonce;
                spent_at = now;
              })
              s.db.nullifiers ok.one_nullifier fresh);
        balanced = rw a.stored (ground (arith, ok.balanced));
      }

  serve-IsSound :
      (uid eid : ℕ) (h : Text) (r : Request) (s : Server)
      → IsSound uid eid h s.db
      → IsSound uid eid h (serve r s).db
  unfolding serve
  serve-IsSound uid eid h (Request.authorize now who body attempt) s ok =
      authorize-IsSound uid eid h now who body attempt s _ _ refl ok
  serve-IsSound uid eid h (Request.cast now token body attempt) s ok =
      cast-IsSound uid eid h now token body attempt s _ _ refl ok

  -- Whatever requests to authorize and to cast are served, in whatever order and however each
  -- ends: a voter holds at most one authorization for an election, a nonce is spent at most once
  -- in it, and its votes are as many as its nullifiers, if this was so before.
  pub run-IsSound :
      (uid eid : ℕ) (h : Text) (rs : List Request) (s : Server)
      → IsSound uid eid h s.db
      → IsSound uid eid h (run rs s).db
  unfolding run
  run-IsSound uid eid h [] s ok = ok
  run-IsSound uid eid h (r ∷ rs) s ok =
      run-IsSound uid eid h rs (serve r s) (serve-IsSound uid eid h r s ok)
