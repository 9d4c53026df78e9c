-- ===== src/Models/Ballots.antt =====
-- Anonymous ballots, receipts, authorizations, nullifiers and one-time passwords (app/models.py).
use secure_voting_platform.Prelude.{ℕ, Option}
use secure_voting_platform.Prelude.Text.{Text}

pub record Vote : Type 0 where
  pub id : ℕ
  pub voter_token : Text
  pub candidate_id : ℕ
  pub election_id : ℕ
  pub position : Text
  pub vote_hash : Text
  pub created_at : ℕ

pub record VoteReceipt : Type 0 where
  pub id : ℕ
  pub user_id : ℕ
  pub election_id : ℕ

pub record BlindSignatureToken : Type 0 where
  pub id : ℕ
  pub user_id : ℕ
  pub election_id : ℕ

pub record SpentBallotNullifier : Type 0 where
  pub id : ℕ
  pub election_id : ℕ
  pub nullifier_hash : Text
  pub spent_at : ℕ

pub record OtpChallenge : Type 0 where
  pub id : Text
  pub user_id : ℕ
  pub purpose : Text
  pub code_digest : Text
  pub expires_at : ℕ
  pub failed_attempts : ℕ
  pub consumed_at : Option ℕ
  pub created_at : ℕ
