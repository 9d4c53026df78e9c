-- ===== src/Tests/Signing.antt =====
-- The signed result of the small election, with a checksum in place of RSA.
use secure_voting_platform.Prelude.{
  ℕ, ◌≡◌, refl, ◌%◌, Bool, true, false, none, some, List, [], ◌∷◌, find, length, arith,
}
use secure_voting_platform.Prelude.Int.{ℤ, pos, is_id}
use secure_voting_platform.Prelude.Text.{from_hex, Text, codes, text_eq, text_eq_refl, hex_text}
use secure_voting_platform.Json.{to_int, Json, Fields}
use secure_voting_platform.Models.{has_role, Store, Status, Election}
use secure_voting_platform.Outcome.{done}
use secure_voting_platform.Results.{get_vote_tallies, Tally}
use secure_voting_platform.SignedResults.{
  validate_local_public_key, archive_key, sign_data, Signer, LocalKey, Vault, rsa_key, Archive,
  SignedElectionResult, sign_election_results, verify_election_results, is_valid, election_results,
  signed_row, local_sign, audit_signing, rsa_pss_sha256, verify_signature, key_of, answer,
}
use secure_voting_platform.Json.{get, value}
use secure_voting_platform.SignedResults.{result_id}
use secure_voting_platform.SignedResults.Official.{IsSigned, sign_election_results-IsSigned}
use secure_voting_platform.SignedResults.Verified.{verify_election_results-is_official}
use secure_voting_platform.SignedResults.RoundTrip.{IsSigningKey, sign-verify}
use secure_voting_platform.Tests.Fixture.{anchor, manager_user, store, election}

abbrev checksum : Text → List ℕ
checksum content = (length content % 256) ∷ []

abbrev toy_key : LocalKey
toy_key = record { sign = checksum; fingerprint = anchor; pem = codes "pem" }

abbrev no_vault : Vault
no_vault = record {
  is_configured = false;
  is_enabled = false;
  transit_sign = (λ content. none);
  transit_signature_version = (λ signature. none);
  transit_key_identity = none;
  transit_verify = (λ content signature. none);
}

abbrev toy_signer : Signer
toy_signer = record {
  local_key = some toy_key;
  load_pem = (λ pem. rsa_key anchor);
  rsa_verify = (λ pem signature content. text_eq signature (checksum content));
  vault = no_vault;
}

toy_key-IsSigningKey : IsSigningKey toy_signer toy_key
unfolding hex_text
toy_key-IsSigningKey = record {
  identified = refl;
  bytes = λ content. ground arith;
  full = λ content. refl;
  accepts = λ content. text_eq_refl (checksum content);
}

abbrev to_text : Fields → Text
to_text fs = codes "{}"

abbrev at_noon : ℕ → Text
at_noon now = codes "noon"

abbrev any_order : Text → Text → Bool
any_order a b = false

abbrev closed_store : Store
closed_store = store (election Status.closed)

abbrev no_archive : Archive
no_archive = record { keys = []; signed = [] }

abbrev official : SignedElectionResult
official = signed_row manager_user 1 50 (codes "{}") (local_sign toy_key (codes "{}"))

abbrev signed_archive : Archive
signed_archive = record {
  keys = record { key_id = anchor; algorithm = rsa_pss_sha256; public_key_pem = codes "pem" } ∷ [];
  signed = official ∷ [];
}

signs :
    sign_election_results to_text at_noon any_order toy_signer true true 50 manager_user
      (Json.int (pos 1))
      closed_store
      no_archive
    ≡ done (audit_signing manager_user 1 closed_store, signed_archive)
unfolding sign_election_results has_role to_int get_vote_tallies sign_data archive_key
    validate_local_public_key
signs = refl

sign_election_results-IsSigned_example :
    IsSigned to_text at_noon any_order toy_signer true 50 manager_user
      (Json.int (pos 1))
      closed_store
      no_archive
      (audit_signing manager_user 1 closed_store)
      signed_archive
sign_election_results-IsSigned_example =
    sign_election_results-IsSigned to_text at_noon any_order toy_signer true true 50 manager_user
      (Json.int (pos 1)) closed_store no_archive (audit_signing manager_user 1 closed_store)
      signed_archive signs

abbrev document : Fields
document = Fields.field (codes "election_id") (Json.int (pos 1)) Fields.end

accepts :
    verify_election_results to_text at_noon any_order toy_signer
      (Json.obj document)
      (Json.str (hex_text (checksum (codes "{}"))))
      signed_archive
    ≡ is_valid true
unfolding verify_election_results hex_text to_int verify_signature from_hex
    validate_local_public_key
accepts = refl

verify_election_results-is_official_example :
    (j : Json) × (z : ℤ) × (r : SignedElectionResult) × (get (codes "election_id") document
      ≡ some j)
    × (result_id to_text at_noon any_order toy_signer j ≡ value z)
    × (find (λ (x : SignedElectionResult). is_id z x.election_id) signed_archive.signed ≡ some r)
    × (r.payload ≡ to_text document)
    × (r.signature ≡ hex_text (checksum (codes "{}")))
    × (verify_signature toy_signer r.payload r.signature r.signer_backend r.signature_algorithm
          r.signing_key_id r.signing_key_version
          (key_of to_text at_noon any_order toy_signer r signed_archive)
        ≡ answer true)
verify_election_results-is_official_example =
    verify_election_results-is_official to_text at_noon any_order toy_signer document
      (hex_text (checksum (codes "{}"))) signed_archive accepts

sign-verify_example :
    (e : Election) × (ts : List Tally) × (r : SignedElectionResult) × (signed_archive.signed
      ≡ r ∷ no_archive.signed)
    × (r.election_id ≡ e.id)
    × (verify_election_results to_text at_noon any_order toy_signer
          (Json.obj (election_results e (at_noon 50) ts))
          (Json.str r.signature)
          signed_archive
        ≡ is_valid true)
sign-verify_example =
    sign-verify to_text at_noon any_order toy_signer toy_key toy_key-IsSigningKey refl refl true
      true 50 manager_user (Json.int (pos 1)) closed_store no_archive
      (audit_signing manager_user 1 closed_store) signed_archive signs
