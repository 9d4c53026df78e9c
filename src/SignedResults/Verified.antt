-- ===== src/SignedResults/Verified.antt =====
-- What the public verification accepts.
use secure_voting_platform.Prelude.{
  refl, Bool-cases, Option-cases, inl, inr, Bool-cases, Option-cases, inl, inr, ℕ, ◌≡◌, Bool, true,
  false, some, find, arith,
}
use secure_voting_platform.Prelude.Int.{ℤ, is_id}
use secure_voting_platform.Prelude.Text.{codes, is_empty, text_eq_iff, Text}
use secure_voting_platform.Json.{get, Json, Fields, Converted, value}
use secure_voting_platform.SignedResults.Signing.{Verification, answer, verify_signature, Signer}
use secure_voting_platform.SignedResults.Defs.{
  verify_answer, verify_stored, key_of, SignedElectionResult, is_valid, verify_election_results,
  Archive,
}
use secure_voting_platform.SignedResults.Defs.{result_id}

verify_answer-valid : (v : Verification) → verify_answer v ≡ is_valid true → v ≡ answer true
verify_answer-valid (answer b) h = ground (arith, h)
verify_answer-valid Verification.metadata_error h = absurd (cc h)
verify_answer-valid Verification.backend_unavailable h = absurd (cc h)

module _ (dumps : Fields → Text) (isoformat : ℕ → Text) (name_lt : Text → Text → Bool)
    (signer : Signer) where
  -- What the key that a stored row names says of its payload and signature.
  abbrev recorded : SignedElectionResult → Archive → Verification
  recorded r a =
      verify_signature signer r.payload r.signature r.signer_backend r.signature_algorithm
        r.signing_key_id r.signing_key_version (key_of dumps isoformat name_lt signer r a)

  verify_stored-valid :
      (r : SignedElectionResult) (payload signature : Text) (a : Archive)
      → verify_stored dumps isoformat name_lt signer r payload signature a ≡ is_valid true
      → (r.payload ≡ payload) × (r.signature ≡ signature) × (recorded r a ≡ answer true)
  verify_stored-valid r payload signature a h =
      let same_payload = (text_eq_iff r.payload payload).0 (ground (arith, h)) in
      let same_signature = (text_eq_iff r.signature signature).0 (ground (arith, h)) in
      let said : verify_answer (
            verify_signature signer payload signature r.signer_backend r.signature_algorithm
              r.signing_key_id r.signing_key_version (key_of dumps isoformat name_lt signer r a))
          ≡ is_valid true =
        ground (arith, h) in
      (same_payload, same_signature, rw (same_payload, same_signature) (verify_answer-valid _ said))

  -- Verification accepts only the official result: its answer is true only for the canonical payload
  -- and the signature of the stored row of the election whose identifier stands in the data's own
  -- field `election_id`, and only if the key that the row names verifies them.
  pub verify_election_results-is_official :
      (fs : Fields) (signature : Text) (a : Archive)
      → verify_election_results dumps isoformat name_lt signer (Json.obj fs) (Json.str signature) a
        ≡ is_valid true
      → (j : Json) × (z : ℤ) × (r : SignedElectionResult) × (get (codes "election_id") fs ≡ some j)
        × (result_id dumps isoformat name_lt signer j ≡ value z)
        × (find (λ (x : SignedElectionResult). is_id z x.election_id) a.signed ≡ some r)
        × (r.payload ≡ dumps fs)
        × (r.signature ≡ signature)
        × (verify_signature signer r.payload r.signature r.signer_backend r.signature_algorithm
              r.signing_key_id r.signing_key_version
              (key_of dumps isoformat name_lt signer r a)
            ≡ answer true)
  unfolding verify_election_results
  verify_election_results-is_official fs signature a h = elim (Bool-cases (is_empty signature)) [
    | inl blank ↦ absurd (ground (arith, h, blank))
    | inr given ↦ elim (Option-cases (get (codes "election_id") fs)) [
      | inl missing ↦ absurd (ground (arith, h, given, missing))
      | inr (j, named) ↦ asked given j named (result_id dumps isoformat name_lt signer j) refl
    ]
  ]
    where
      Official : Type 0
      Official =
          (j : Json) × (z : ℤ) × (r : SignedElectionResult) × (get (codes "election_id") fs
            ≡ some j)
          × (result_id dumps isoformat name_lt signer j ≡ value z)
          × (find (λ (x : SignedElectionResult). is_id z x.election_id) a.signed ≡ some r)
          × (r.payload ≡ dumps fs)
          × (r.signature ≡ signature)
          × (recorded r a ≡ answer true)

      asked :
          is_empty signature ≡ false
          → (j : Json) → get (codes "election_id") fs ≡ some j
          → (c : Converted ℤ) → result_id dumps isoformat name_lt signer j ≡ c
          → Official
      asked given j named Converted.rejected e = absurd (ground (arith, h, given, named, e))
      asked given j named Converted.crash e = absurd (ground (arith, h, given, named, e))
      asked given j named (value z) e =
          elim (Option-cases
            (find (λ (x : SignedElectionResult). is_id z x.election_id) a.signed)) [
              | inl none_stored ↦ absurd (ground (arith, h, given, named, e, none_stored))
              | inr (r, found) ↦
                  let (p, q, v) =
                    verify_stored-valid r (dumps fs) signature a
                      (ground (arith, h, given, named, e, found)) in
                  (j, z, r, named, e, found, p, q, v)
            ]
