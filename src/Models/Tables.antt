-- ===== src/Models/Tables.antt =====
-- The tables of the database with the constraints that an insertion meets, and the audit trail.
-- `none` is SQLAlchemy's IntegrityError. Row identifiers come from one counter.
use secure_voting_platform.Prelude.{
  ℕ, suc, Bool, ◌&&◌, ◌||◌, not, Option, none, some, List, ◌∷◌, ◌==◌, any, if◌then◌else◌,
}
use secure_voting_platform.Prelude.Text.{Text, text_eq}
use secure_voting_platform.Models.Accounts.{Region, User, ElectoralRoll}
use secure_voting_platform.Models.Elections.{Election, Candidate}
use secure_voting_platform.Models.Ballots.{
  Vote, VoteReceipt, BlindSignatureToken, SpentBallotNullifier,
}

-- `record_audit_event`: no actor is the id 'anonymous', and every outcome is 'success'.
pub record AuditEvent : Type 0 where
  pub actor : Option ℕ
  pub action : Text
  pub target_type : Text
  pub target_id : ℕ

pub record Store : Type 0 where
  pub regions : List Region
  pub users : List User
  pub rolls : List ElectoralRoll
  pub elections : List Election
  pub candidates : List Candidate
  pub votes : List Vote
  pub receipts : List VoteReceipt
  pub tokens : List BlindSignatureToken
  pub nullifiers : List SpentBallotNullifier
  pub next_id : ℕ
  pub audit : List AuditEvent

abbrev pub has_candidate : ℕ → ℕ → Candidate → Bool
has_candidate cid eid c = (c.id == cid) && (c.election_id == eid)

abbrev pub in_election : ℕ → Candidate → Bool
in_election eid c = c.election_id == eid

abbrev pub has_token : ℕ → ℕ → BlindSignatureToken → Bool
has_token uid eid t = (t.user_id == uid) && (t.election_id == eid)

abbrev pub has_receipt : ℕ → ℕ → VoteReceipt → Bool
has_receipt uid eid r = (r.user_id == uid) && (r.election_id == eid)

abbrev pub has_nullifier : ℕ → Text → SpentBallotNullifier → Bool
has_nullifier eid h n = (n.election_id == eid) && text_eq n.nullifier_hash h

-- uq_vote_voter_token and fk_vote_candidate_election
unfoldable pub insert_vote : Vote → Store → Option Store
insert_vote v s =
    if any (λ w. text_eq w.voter_token v.voter_token) s.votes
      || not (any (has_candidate v.candidate_id v.election_id) s.candidates)
    then none
    else some (record s { votes = v ∷ s.votes; next_id = suc s.next_id })

-- uq_spent_nullifier_election_hash
unfoldable pub insert_nullifier : SpentBallotNullifier → Store → Option Store
insert_nullifier n s =
    if any (has_nullifier n.election_id n.nullifier_hash) s.nullifiers
    then none
    else some (record s { nullifiers = n ∷ s.nullifiers; next_id = suc s.next_id })

-- uq_blind_sig_token_user_election
unfoldable pub insert_token : BlindSignatureToken → Store → Option Store
insert_token t s =
    if any (has_token t.user_id t.election_id) s.tokens
    then none
    else some (record s { tokens = t ∷ s.tokens; next_id = suc s.next_id })

-- uq_vote_receipt_user_election
unfoldable pub insert_receipt : VoteReceipt → Store → Option Store
insert_receipt r s =
    if any (has_receipt r.user_id r.election_id) s.receipts
    then none
    else some (record s { receipts = r ∷ s.receipts; next_id = suc s.next_id })

-- `record_audit_event`, which sends the event to the logger: the list is the log, not a table.
unfoldable pub record_audit_event : AuditEvent → Store → Store
record_audit_event e s = record s { audit = e ∷ s.audit }
