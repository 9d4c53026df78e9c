-- ===== src/Ballots/Cast.antt =====
-- `cast_anonymous_ballot` of app/routes/main.py. No user is an argument: the endpoint has none. The
-- JSON decoder, the clock's text and SHA-256 are parameters, and the random voter token too.
use secure_voting_platform.Prelude.{
  ℕ, Bool, false, ◌&&◌, ◌||◌, not, Option, none, some, List, ◌∷◌, ◌++◌, ◌==◌, all, find, select,
  length, if◌then◌else◌, leb,
}
use secure_voting_platform.Prelude.Int.{ℤ, is_id}
use secure_voting_platform.Prelude.Text.{Text, codes, from_hex, hex_text, decimal, utf8, is_digit}
use secure_voting_platform.Json.{
  Json, Fields, Converted, value, rejected, truthy, get, get_or_null, to_int, to_int_16,
}
use secure_voting_platform.Models.{
  Store, Election, Candidate, in_election, insert_vote, insert_nullifier, record_audit_event,
}
use secure_voting_platform.Keys.{
  PublicKey, Attempt, KeyAction, KeyResult, ok, key_error, value_error, os_error, and_then,
  ensure_election_blind_signing_key,
}
use secure_voting_platform.BlindSignature.{verify_unblinded_signature}
use secure_voting_platform.Outcome.{
  commit, Outcome, done, refuse, Refusal, missing_ballot, invalid_ballot_format, malformed_ballot,
  malformed_nullifier, key_unavailable, invalid_signature, candidate_not_in_election,
  not_single_contest, already_submitted, server_error, refuse_if, or_refuse, ◌>>=◌, ◌>>◌, Server,
  with_keys,
}
use secure_voting_platform.Voters.{is_single_contest}
use secure_voting_platform.Ballots.Authorize.{converted, open_election_of}

-- What the handler uses of the Python runtime and of hashlib. `loads` is `_json.loads` of the bytes
-- decoded as UTF-8, with `none` for the ValueError of either.
pub record Runtime : Type 0 where
  pub sha256 : List ℕ → List ℕ
  pub loads : List ℕ → Option Json
  pub isoformat : ℕ → Text

pub record Ballot : Type 0 where
  pub bytes : List ℕ
  pub signature : ℤ
  pub candidate_id : ℤ
  pub election_id : ℤ
  pub nonce : Text

-- `bytes.fromhex(v)`
abbrev hex_bytes : Json → Converted (List ℕ)
hex_bytes (Json.str s) = elim (from_hex s) [ none ↦ rejected | some b ↦ value b ]
hex_bytes _ = rejected

abbrev as_fields : Json → Refusal → Outcome Fields
as_fields (Json.obj fs) r = done fs
as_fields _ r = refuse r

-- `isinstance(nonce, str)`, 64 characters, each of `0123456789abcdef`
unfoldable pub nullifier_text : Json → Outcome Text
nullifier_text (Json.str t) =
    if (length t == 64) && all (λ c. is_digit c || (leb b'a' c && leb c b'f')) t
    then done t
    else refuse malformed_nullifier
nullifier_text _ = refuse malformed_nullifier

module _ (rt : Runtime) where
  -- The request up to the nullifier.
  unfoldable pub parse_ballot : Option Json → Outcome Ballot
  unfolding nullifier_text
  parse_ballot none = refuse missing_ballot
  parse_ballot (some j) = do
    data_fields ← as_fields j missing_ballot
    ballot_hex ← or_refuse (get (codes "ballot") data_fields) missing_ballot
    signature_hex ← or_refuse (get (codes "signature") data_fields) missing_ballot
    bytes ← converted (hex_bytes ballot_hex) invalid_ballot_format
    ballot_json ← or_refuse (rt.loads bytes) invalid_ballot_format
    signature ← converted (to_int_16 signature_hex) invalid_ballot_format
    fields ← as_fields ballot_json malformed_ballot
    let candidate_raw = get_or_null (codes "candidate_id") fields
    let election_raw = get_or_null (codes "election_id") fields
    let nonce_raw = get_or_null (codes "nonce") fields
    refuse_if (not (truthy candidate_raw) || not (truthy election_raw) || not (truthy nonce_raw))
        malformed_ballot
    candidate_id ← converted (to_int candidate_raw) malformed_ballot
    election_id ← converted (to_int election_raw) malformed_ballot
    nonce ← nullifier_text nonce_raw
    done (record {
      bytes = bytes;
      signature = signature;
      candidate_id = candidate_id;
      election_id = election_id;
      nonce = nonce;
    })

  -- The hash that stands for the nonce.
  unfoldable pub nonce_hash : Text → Text
  nonce_hash nonce = hex_text (rt.sha256 (utf8 nonce))

  unfoldable pub vote_hash : Text → ℕ → ℕ → ℕ → Text
  vote_hash token election_id candidate_id ts = hex_text (
      rt.sha256 (
        utf8 (
          token
          ++ (b':'
              ∷ (decimal election_id
                  ++ (b':' ∷ (decimal candidate_id ++ (b':' ∷ rt.isoformat ts))))))))

  -- The candidate's lookup and the roster check.
  unfoldable pub chosen_candidate : ℤ → Election → Store → Outcome Candidate
  chosen_candidate z e s = do
    c ←
        or_refuse (find (λ c. is_id z c.id && (c.election_id == e.id)) s.candidates)
          candidate_not_in_election
    refuse_if (not (is_single_contest (select (in_election e.id) s.candidates))) not_single_contest
    done c

  -- The two rows in one commit, and the audit event, which names nobody.
  unfoldable pub record_ballot : ℕ → Text → Text → Election → Candidate → Store → Outcome Store
  unfolding nonce_hash vote_hash
  record_ballot now token nonce e c s = do
    s₁ ←
        or_refuse
          (insert_vote
            (record {
              id = s.next_id;
              voter_token = token;
              candidate_id = c.id;
              election_id = e.id;
              position = c.position;
              vote_hash = vote_hash token e.id c.id now;
              created_at = now;
            })
            s)
          already_submitted
    s₂ ←
        or_refuse
          (insert_nullifier
            (record {
              id = s₁.next_id;
              election_id = e.id;
              nullifier_hash = nonce_hash nonce;
              spent_at = now;
            })
            s₁)
          already_submitted
    done (
        record_audit_event
          (record {
            actor = none;
            action = codes "ballot.cast";
            target_type = codes "election";
            target_id = e.id;
          })
          s₂)

  module _ (fingerprint : PublicKey → Text) (attempt : Attempt) where
    -- The key check and the verification.
    abbrev pub check_ballot : Ballot → Election → KeyAction Bool
    check_ballot b e k =
        and_then
          (ensure_election_blind_signing_key fingerprint attempt false e.id e.blind_signing_key_id
            k)
          (λ _. verify_unblinded_signature rt.sha256 fingerprint b.bytes b.signature e.id)

    -- Only a BlindSigningKeyError is caught.
    abbrev pub verified : KeyResult Bool → Outcome Bool
    verified (ok a) = done a
    verified (key_error _) = refuse key_unavailable
    verified value_error = refuse server_error
    verified os_error = refuse server_error

    -- What follows the verification, on the database.
    unfoldable pub accept : ℕ → Text → Ballot → Election → Bool → Store → Outcome Store
    accept now token b e valid s = do
      refuse_if (not valid) invalid_signature
      c ← chosen_candidate b.candidate_id e s
      record_ballot now token b.nonce e c s

    abbrev pub finish_cast :
        ℕ → Text → Ballot → Election → Outcome Bool × Server → Outcome (Unit {0}) × Server
    finish_cast now token b e (done valid, s) = commit tt (accept now token b e valid s.db) s
    finish_cast now token b e (refuse r, s) = (refuse r, s)

    abbrev pub run_cast :
        ℕ → Text → Outcome (Ballot × Election) → Server → Outcome (Unit {0}) × Server
    run_cast now token (refuse r) s = (refuse r, s)
    run_cast now token (done (b, e)) s =
        finish_cast now token b e (with_keys (check_ballot b e) verified s)

    -- The ballot and its open election.
    unfoldable pub read_cast : ℕ → Option Json → Store → Outcome (Ballot × Election)
    read_cast now body s = do
      b ← parse_ballot body
      e ← open_election_of now b.election_id s
      done (b, e)

    -- `cast_anonymous_ballot`
    unfoldable pub cast_anonymous_ballot :
        ℕ → Text → Option Json → Server → Outcome (Unit {0}) × Server
    unfolding read_cast
    cast_anonymous_ballot now token body s = run_cast now token (read_cast now body s.db) s
