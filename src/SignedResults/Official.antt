-- ===== src/SignedResults/Official.antt =====
-- What a signed result is, and what the public verification accepts.
use secure_voting_platform.Prelude.{
  none, ◌+◌, [], Bool-cases, not-eq-false, ℕ, ◌≡◌, ap, ◌∙◌, Bool, true, false, not, some, List, ◌∷◌,
  any, find, arith,
}
use secure_voting_platform.Prelude.Int.{ℤ, pos, is_id}
use secure_voting_platform.Prelude.Text.{text_eq, text_eq_iff, codes, Text}
use secure_voting_platform.Json.{Items, Json, Fields, Converted, value, to_int}
use secure_voting_platform.Models.{record_audit_event, Store, User, Election, has_role}
use secure_voting_platform.Outcome.{
  done, or_refuse-eq-done, >>=-eq-done, >>-eq-done, forbidden, invalid_election_id,
  election_not_found, election_not_closed, already_signed, signing_unavailable, not_persisted,
}
use secure_voting_platform.Elections.{manager}
use secure_voting_platform.Ballots.{converted}
use secure_voting_platform.Results.{
  Tally, TallyRead, tallies, unavailable, uncaught, get_vote_tallies,
}
use secure_voting_platform.SignedResults.Signing.{
  validate_local_public_key, local_rsa_backend, Signer, SigningResult, sign_data,
}
use secure_voting_platform.SignedResults.Defs.{
  audit_signing, signed_row, sum_votes, ResultSigningPublicKey, tally_items, Archive, is_result_of,
  is_closed, election_results, read_tallies, archive_key, sign_election_results,
}
use mathlib.Core.Path.{subst, sym}
use secure_voting_platform.Prelude.{inl, inr, Option-cases, Bool-cases, none, [], ◌+◌, refl}
use secure_voting_platform.Json.{Items}
use secure_voting_platform.SignedResults.Defs.{
  ResultSigningPublicKey, archived_key, tally_items, sum_votes,
}
use secure_voting_platform.SignedResults.Signing.{local_rsa_backend, validate_local_public_key}
use secure_voting_platform.Models.{record_audit_event}
use secure_voting_platform.Prelude.Text.{codes, text_eq, text_eq_iff}

module _ (dumps : Fields → Text) (isoformat : ℕ → Text) (name_lt : Text → Text → Bool)
    (signer : Signer) where
  -- The document of an election's result, as the public page shows it.
  abbrev pub tally_document : Tally → Json
  tally_document t = Json.obj (
      Fields.field (codes "candidate_id") (Json.int (pos t.candidate_id)) (
        Fields.field (codes "name") (Json.str t.name) (
          Fields.field (codes "position") (Json.str t.position) (
            Fields.field (codes "region_id") (Json.int (pos t.region_id)) (
              Fields.field (codes "region") (Json.str t.region)
                (Fields.field (codes "votes") (Json.int (pos t.votes)) Fields.end))))))

  -- The items are the tallies in their order, and the number is their sum.
  pub data Lists : List Tally → Items → ℕ → Type 0 where
    nothing : Lists [] Items.nil 0
    next :
        (t : Tally) (ts : List Tally) (items : Items) (total : ℕ)
        → Lists ts items total
        → Lists (t ∷ ts) (Items.cons (tally_document t) items) (t.votes + total)

  -- The archive of keys after a signature: a signature of Vault leaves it, a local one keeps the key
  -- of its identifier, which must be the same, or adds it when there is none, and nothing else.
  pub data Archived (r : SigningResult) (ks : List ResultSigningPublicKey)
      : List ResultSigningPublicKey → Type 0 where
    remote : text_eq r.signer_backend local_rsa_backend ≡ false → Archived r ks ks
    known :
        (k : ResultSigningPublicKey)
        → find (λ (x : ResultSigningPublicKey). text_eq x.key_id r.signing_key_id) ks ≡ some k
        → k.algorithm ≡ r.signature_algorithm
        → r.public_key_pem ≡ some k.public_key_pem
        → Archived r ks ks
    added :
        (pem : Text)
        → r.public_key_pem ≡ some pem
        → validate_local_public_key signer (some pem) r.signing_key_id ≡ true
        → find (λ (x : ResultSigningPublicKey). text_eq x.key_id r.signing_key_id) ks ≡ none
        → Archived r ks (
            record {
              key_id = r.signing_key_id;
              algorithm = r.signature_algorithm;
              public_key_pem = pem;
            }
            ∷ ks)

  -- The steps of a request that signs.
  pub record Signs (readable : Bool) (now : ℕ) (u : User) (raw : Json) (s : Store) (a : Archive)
      (s' : Store) (a' : Archive) : Type 0 where
    pub election : Election
    pub asked : ℤ
    pub rows : List Tally
    pub result : SigningResult
    pub by_manager : has_role manager u ≡ true
    pub named : to_int raw ≡ value asked
    pub found : find (λ (x : Election). is_id asked x.id) s.elections ≡ some election
    pub closed : is_closed election.status ≡ true
    pub first : any (is_result_of election.id) a.signed ≡ false
    pub tallied : get_vote_tallies name_lt readable (Json.int (pos election.id)) s ≡ tallies rows
    pub made :
        sign_data signer (dumps (election_results election (isoformat now) rows)) ≡ some result
    pub archived : archive_key signer result a ≡ done a'.keys
    pub stored :
        a'.signed
        ≡ signed_row u election.id now
            (dumps (election_results election (isoformat now) rows))
            result
          ∷ a.signed
    pub kept : s' ≡ audit_signing u election.id s

  -- The result that a request signed.
  pub record IsSigned (readable : Bool) (now : ℕ) (u : User) (raw : Json) (s : Store) (a : Archive)
      (s' : Store) (a' : Archive) : Type 0 where
    pub election : Election
    pub asked : ℤ
    pub rows : List Tally
    pub items : Items
    pub total : ℕ
    pub payload : Text
    pub result : SigningResult
    pub by_manager : has_role manager u ≡ true
    pub named : to_int raw ≡ value asked
    pub found : find (λ (x : Election). is_id asked x.id) s.elections ≡ some election
    pub closed : is_closed election.status ≡ true
    pub first : any (is_result_of election.id) a.signed ≡ false
    pub tallied : get_vote_tallies name_lt readable (Json.int (pos election.id)) s ≡ tallies rows
    pub listed : Lists rows items total
    pub canonical :
        payload
        ≡ dumps (
            Fields.field (codes "election_id") (Json.int (pos election.id)) (
              Fields.field (codes "election_name") (Json.str election.name) (
                Fields.field (codes "signed_at") (Json.str (isoformat now)) (
                  Fields.field
                    (codes "results")
                    (Json.arr items)
                    (Fields.field (codes "total_votes") (Json.int (pos total)) Fields.end)))))
    pub made : sign_data signer payload ≡ some result
    pub archived : Archived result a.keys a'.keys
    pub stored :
        a'.signed
        ≡ record {
          election_id = election.id;
          payload = payload;
          signature = result.signature;
          signer_backend = result.signer_backend;
          signature_algorithm = result.signature_algorithm;
          signing_key_id = result.signing_key_id;
          signing_key_version = result.signing_key_version;
          signed_at = now;
          signed_by = u.id;
        }
          ∷ a.signed
    pub kept :
        s'
        ≡ record_audit_event
            (record {
              actor = some u.id;
              action = codes "result.sign";
              target_type = codes "election_result";
              target_id = election.id;
            })
            s

  listed-tallies : (ts : List Tally) → Lists ts (tally_items ts) (sum_votes ts)
  listed-tallies [] = Lists.nothing
  listed-tallies (t ∷ ts) = Lists.next t ts (tally_items ts) (sum_votes ts) (listed-tallies ts)

  archive_key-Archived :
      (r : SigningResult) (a : Archive) {ks : List ResultSigningPublicKey}
      → archive_key signer r a ≡ done ks
      → Archived r a.keys ks
  unfolding archive_key
  archive_key-Archived r a {ks} h = elim (Bool-cases (text_eq r.signer_backend local_rsa_backend)) [
    | inr vault ↦
        let same : a.keys ≡ ks = ground (arith, h, vault) in
        subst (Archived r a.keys) same (Archived.remote vault)
    | inl local ↦ elim (Option-cases r.public_key_pem) [
      | inl missing ↦ absurd (ground (arith, h, local, missing))
      | inr (pem, given) ↦
          elim (Bool-cases (validate_local_public_key signer (some pem) r.signing_key_id)) [
            | inr bad ↦ absurd (ground (arith, h, local, given, bad))
            | inl good ↦ elim (Option-cases (archived_key r.signing_key_id a)) [
              | inl new ↦
                  let added : record {
                    key_id = r.signing_key_id;
                    algorithm = r.signature_algorithm;
                    public_key_pem = pem;
                  }
                        ∷ a.keys
                      ≡ ks =
                    ground (arith, h, local, given, good, new) in
                  subst (Archived r a.keys) added (Archived.added pem given good new)
              | inr (k, found) ↦
                  let same_algorithm : text_eq k.algorithm r.signature_algorithm ≡ true =
                    ground (arith, h, local, given, good, found) in
                  let same_pem : text_eq k.public_key_pem pem ≡ true =
                    ground (arith, h, local, given, good, found) in
                  let kept : a.keys ≡ ks = ground (arith, h, local, given, good, found) in
                  subst (Archived r a.keys) kept (
                    Archived.known k found
                      ((text_eq_iff k.algorithm r.signature_algorithm).0 same_algorithm)
                      (given
                        ∙ sym (ap (λ t. some t) ((text_eq_iff k.public_key_pem pem).0 same_pem))))
            ]
          ]
    ]
  ]

  read_tallies-eq-done :
      (t : TallyRead) {ts : List Tally} → read_tallies t ≡ done ts → t ≡ tallies ts
  read_tallies-eq-done unavailable h = cc
  read_tallies-eq-done uncaught h = cc
  read_tallies-eq-done (tallies ts) h = ground (arith, h)

  converted-eq-done :
      (c : Converted ℤ) {z : ℤ} → converted c invalid_election_id ≡ done z → c ≡ value z
  converted-eq-done (value z) h = ground (arith, h)
  converted-eq-done Converted.rejected h = cc
  converted-eq-done Converted.crash h = cc

  pub sign_election_results-Signs :
      (readable persisted : Bool) (now : ℕ) (u : User) (raw : Json) (s : Store) (a : Archive)
      (s' : Store) (a' : Archive)
      → sign_election_results dumps isoformat name_lt signer readable persisted now u raw s a
        ≡ done (s', a')
      → Signs readable now u raw s a s' a'
  unfolding sign_election_results
  sign_election_results-Signs readable persisted now u raw s a s' a' h =
      let (may, h1) = >>-eq-done (not (has_role manager u)) forbidden _ h in
      let (z, named, h2) = >>=-eq-done _ _ h1 in
      let (e, found, h3) = >>=-eq-done _ _ h2 in
      let (closed, h4) = >>-eq-done (not (is_closed e.status)) election_not_closed _ h3 in
      let (first, h5) = >>-eq-done (any (is_result_of e.id) a.signed) already_signed _ h4 in
      let (ts, tallied, h6) = >>=-eq-done _ _ h5 in
      let (r, made, h7) = >>=-eq-done _ _ h6 in
      let (keys, archived, h8) = >>=-eq-done _ _ h7 in
      let (_, h9) = >>-eq-done (not persisted) not_persisted _ h8 in
      let own_keys : keys ≡ a'.keys = ground (arith, h9) in
      record {
        election = e;
        asked = z;
        rows = ts;
        result = r;
        by_manager = not-eq-false _ may;
        named = converted-eq-done (to_int raw) named;
        found = or_refuse-eq-done _ election_not_found found;
        closed = not-eq-false _ closed;
        first = first;
        tallied = read_tallies-eq-done _ tallied;
        made = or_refuse-eq-done _ signing_unavailable made;
        archived = archived ∙ ap done own_keys;
        stored = ground (arith, h9);
        kept = ground (arith, h9);
      }

  -- Results are signed by a manager, for a closed election whose results were not signed before.
  -- One row is added to the signed results: its payload is the canonical form of the document with
  -- the election's identifier, name, tallies and total, and its signature is the signer's of that
  -- payload. The archive of keys stays, or gets the one key that a local signature was made with;
  -- every other table stays, and the audit log gets one event.
  pub sign_election_results-IsSigned :
      (readable persisted : Bool) (now : ℕ) (u : User) (raw : Json) (s : Store) (a : Archive)
      (s' : Store) (a' : Archive)
      → sign_election_results dumps isoformat name_lt signer readable persisted now u raw s a
        ≡ done (s', a')
      → IsSigned readable now u raw s a s' a'
  sign_election_results-IsSigned readable persisted now u raw s a s' a' h =
      let o = sign_election_results-Signs readable persisted now u raw s a s' a' h in
      record {
        election = o.election;
        asked = o.asked;
        rows = o.rows;
        items = tally_items o.rows;
        total = sum_votes o.rows;
        payload = dumps (election_results o.election (isoformat now) o.rows);
        result = o.result;
        by_manager = o.by_manager;
        named = o.named;
        found = o.found;
        closed = o.closed;
        first = o.first;
        tallied = o.tallied;
        listed = listed-tallies o.rows;
        canonical = refl;
        made = o.made;
        archived = archive_key-Archived o.result a o.archived;
        stored = o.stored;
        kept = o.kept;
      }
