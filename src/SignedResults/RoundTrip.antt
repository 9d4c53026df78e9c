-- ===== src/SignedResults/RoundTrip.antt =====
-- A result that was signed locally passes the public verification.
use mathlib.Core.Path.{subst}
use secure_voting_platform.Prelude.{
  ℕ, ◌≡◌, refl, ap, sym, Bool, true, false, none, some, List, [], ◌∷◌, find, all, ltb, arith, inl,
  inr, Option-cases, Bool-cases,
}
use secure_voting_platform.Prelude.Int.{pos, is_id}
use secure_voting_platform.Prelude.Text.{
  Text, text_eq, text_eq_iff, text_eq_refl, is_empty, hex_text,
}
use secure_voting_platform.Prelude.Digits.{from_hex-hex_text}
use secure_voting_platform.Json.{Json, Fields, to_int}
use secure_voting_platform.Models.{Store, User}
use secure_voting_platform.Models.{Election}
use secure_voting_platform.Results.{Tally}
use secure_voting_platform.Outcome.{done}
use secure_voting_platform.SignedResults.Signing.{
  Signer, LocalKey, sign_data, local_sign, validate_local_public_key, local_rsa_backend,
  rsa_pss_sha256, answer, verify_signature, is_local_key_id,
}
use secure_voting_platform.SignedResults.Defs.{
  Archive, SignedElectionResult, ResultSigningPublicKey, election_results, archive_key,
  archived_key, has_key_id, signed_row, sign_election_results, key_of, verify_stored,
  verify_election_results, is_valid, verify_answer,
}
use secure_voting_platform.SignedResults.Official.{sign_election_results-Signs}

archive_key-found :
    (signer : Signer) (key : LocalKey) (payload : Text) (a : Archive)
    {keys : List ResultSigningPublicKey}
    → archive_key signer (local_sign key payload) a ≡ done keys
    → (validate_local_public_key signer (some key.pem) key.fingerprint ≡ true)
      × ((k : ResultSigningPublicKey) × (find (has_key_id key.fingerprint) keys ≡ some k)
          × (k.public_key_pem ≡ key.pem))
unfolding archive_key
archive_key-found signer key payload a {keys} h =
    elim (Bool-cases (validate_local_public_key signer (some key.pem) key.fingerprint)) [
      | inr invalid ↦ absurd (ground (arith, h, invalid))
      | inl valid ↦ elim (Option-cases (archived_key key.fingerprint a)) [
        | inl new ↦
            let row : ResultSigningPublicKey = record {
              key_id = key.fingerprint;
              algorithm = rsa_pss_sha256;
              public_key_pem = key.pem;
            } in
            let same : row ∷ a.keys ≡ keys = ground (arith, h, valid, new) in
            (valid, (row, rw⁻¹ same (rw (text_eq_refl key.fingerprint) refl), refl))
        | inr (k, old) ↦
            let same : a.keys ≡ keys = ground (arith, h, valid, old) in
            let own : text_eq k.public_key_pem key.pem ≡ true = ground (arith, h, valid, old) in
            (valid, (k, rw⁻¹ same old, (text_eq_iff k.public_key_pem key.pem).0 own))
      ]
    ]

-- What the program relies on of a local RSA keypair: its fingerprint is a SHA-256 in hexadecimal, and
-- a signature is a sequence of bytes, not empty, that the public key accepts.
pub record IsSigningKey (signer : Signer) (key : LocalKey) : Type 0 where
  pub identified : is_local_key_id key.fingerprint ≡ true
  pub bytes : (content : Text) → all (λ b. ltb b 256) (key.sign content) ≡ true
  pub full : (content : Text) → is_empty (hex_text (key.sign content)) ≡ false
  pub accepts : (content : Text) → signer.rsa_verify key.pem (key.sign content) content ≡ true

key_id-full : (s : Text) → is_local_key_id s ≡ true → is_empty s ≡ false
key_id-full [] h = cc
key_id-full (c ∷ s) h = refl

verify-local_sign :
    (signer : Signer) (key : LocalKey) (payload : Text)
    → IsSigningKey signer key
    → validate_local_public_key signer (some key.pem) key.fingerprint ≡ true
    → verify_signature signer payload
        (hex_text (key.sign payload))
        local_rsa_backend
        rsa_pss_sha256
        key.fingerprint
        none
        (some key.pem)
      ≡ answer true
unfolding verify_signature
verify-local_sign signer key payload is_key valid =
    rw (verify_signature, key_id-full key.fingerprint is_key.identified, is_key.identified)
      (rw (from_hex-hex_text (key.sign payload) (is_key.bytes payload))
        (rw (valid, is_key.accepts payload) refl))

module _ (dumps : Fields → Text) (isoformat : ℕ → Text) (name_lt : Text → Text → Bool)
    (signer : Signer) where
  -- The stored row of a local signature by a key that the archive has.
  verify_stored-local :
      (key : LocalKey) (r : SignedElectionResult) (a : Archive) (k : ResultSigningPublicKey)
      → IsSigningKey signer key
      → r.signature ≡ hex_text (key.sign r.payload)
      → r.signer_backend ≡ local_rsa_backend
      → r.signature_algorithm ≡ rsa_pss_sha256
      → r.signing_key_id ≡ key.fingerprint
      → r.signing_key_version ≡ none
      → validate_local_public_key signer (some key.pem) key.fingerprint ≡ true
      → find (has_key_id key.fingerprint) a.keys ≡ some k
      → k.public_key_pem ≡ key.pem
      → verify_stored dumps isoformat name_lt signer r r.payload r.signature a ≡ is_valid true
  verify_stored-local key r a k is_key signature backend algorithm key_id version valid found pem =
      let there : archived_key r.signing_key_id a ≡ some k =
        subst (λ i. archived_key i a ≡ some k) (sym key_id) found in
      let here : key_of dumps isoformat name_lt signer r a ≡ some key.pem =
        rw (backend, there) (ap some pem) in
      let said : verify_signature signer r.payload r.signature r.signer_backend
            r.signature_algorithm r.signing_key_id r.signing_key_version
            (key_of dumps isoformat name_lt signer r a)
          ≡ answer true =
        rw (here, signature, backend, algorithm, key_id, version)
          (verify-local_sign signer key r.payload is_key valid) in
      rw (text_eq_refl r.payload, text_eq_refl r.signature) (ap verify_answer said)

  find-newest :
      (r : SignedElectionResult) (a : Archive) {rs : List SignedElectionResult}
      → a.signed ≡ r ∷ rs
      → find (λ (x : SignedElectionResult). is_id (pos r.election_id) x.election_id) a.signed
        ≡ some r
  find-newest r a stored = rw stored (ground arith)

  newest-valid :
      (e : Election) (at : Text) (ts : List Tally) (r : SignedElectionResult) (a : Archive)
      {rs : List SignedElectionResult}
      → r.election_id ≡ e.id
      → r.payload ≡ dumps (election_results e at ts)
      → is_empty r.signature ≡ false
      → a.signed ≡ r ∷ rs
      → verify_stored dumps isoformat name_lt signer r r.payload r.signature a ≡ is_valid true
      → verify_election_results dumps isoformat name_lt signer
          (Json.obj (election_results e at ts))
          (Json.str r.signature)
          a
        ≡ is_valid true
  unfolding verify_election_results to_int
  newest-valid e at ts r a own payload full stored valid =
      let found : find (λ (x : SignedElectionResult). is_id (pos e.id) x.election_id) a.signed
          ≡ some r =
        subst
          (λ i. find (λ (x : SignedElectionResult). is_id (pos i) x.election_id) a.signed ≡ some r)
          own (find-newest r a stored) in
      rw (verify_election_results, full, found, sym payload) valid

  -- The round trip of a signed result: once a manager's request signed the results of an election
  -- with the local key, `verify_election_results` answers that the signed document with its
  -- signature is valid. The Vault client is not configured, and the local key is an RSA keypair.
  pub sign-verify :
      (key : LocalKey)
      → IsSigningKey signer key
      → signer.vault.is_configured ≡ false
      → signer.local_key ≡ some key
      → (readable persisted : Bool) (now : ℕ) (u : User) (raw : Json) (s : Store) (a : Archive)
        (s' : Store) (a' : Archive)
      → sign_election_results dumps isoformat name_lt signer readable persisted now u raw s a
        ≡ done (s', a')
      → (e : Election) × (ts : List Tally) × (r : SignedElectionResult) × (a'.signed ≡ r ∷ a.signed)
        × (r.election_id ≡ e.id)
        × (verify_election_results dumps isoformat name_lt signer
              (Json.obj (election_results e (isoformat now) ts))
              (Json.str r.signature)
              a'
            ≡ is_valid true)
  unfolding sign_data
  sign-verify key is_key no_vault local readable persisted now u raw s a s' a' signed =
      let o =
        sign_election_results-Signs dumps isoformat name_lt signer readable persisted now u raw s a
          s' a' signed in
      let payload = dumps (election_results o.election (isoformat now) o.rows) in
      let local_result : sign_data signer payload ≡ some (local_sign key payload) =
        rw (sign_data, no_vault, local) refl in
      let own : o.result ≡ local_sign key payload = ground (arith, o.made, local_result) in
      let archived : archive_key signer (local_sign key payload) a ≡ done a'.keys =
        subst (λ r. archive_key signer r a ≡ done a'.keys) own o.archived in
      let row = signed_row u o.election.id now payload (local_sign key payload) in
      let stored : a'.signed ≡ row ∷ a.signed =
        subst (λ r. a'.signed ≡ signed_row u o.election.id now payload r ∷ a.signed) own o.stored in
      let (valid, (k, found, pem)) = archive_key-found signer key payload a archived in
      (
        o.election,
        o.rows,
        row,
        stored,
        refl,
        newest-valid o.election (isoformat now) o.rows row a' refl refl (is_key.full payload) stored
            (verify_stored-local key row a' k is_key refl refl refl refl refl valid found pem),
      )
