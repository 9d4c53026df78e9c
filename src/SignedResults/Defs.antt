-- ===== src/SignedResults/Defs.antt =====
-- `sign_election_results`, `get_latest_results` and `verify_election_results` (app/routes/results.py),
-- with the archive rows of app/models.py. Signing is serialized by the process lock and the row lock:
-- no other signer works in between. `json.dumps`, `json.loads` and `isoformat` are parameters.
use secure_voting_platform.Prelude.{
  ltb, select, ℕ, ◌+◌, Bool, true, false, ◌&&◌, ◌||◌, not, Option, none, some, List, [], ◌∷◌, ◌==◌,
  any, find, if◌then◌else◌,
}
use secure_voting_platform.Prelude.Int.{ℤ, pos, is_id}
use secure_voting_platform.Prelude.Text.{int_of_text, Text, codes, text_eq, is_empty}
use secure_voting_platform.Json.{Json, Fields, Items, Converted, value, rejected, get, to_int}
use secure_voting_platform.Models.{Store, User, Election, Status, has_role, record_audit_event}
use secure_voting_platform.Outcome.{
  Outcome, done, refuse, refuse_if, or_refuse, ◌>>=◌, ◌>>◌, forbidden, invalid_election_id,
  election_not_found, election_not_closed, already_signed, results_unavailable, signing_unavailable,
  signing_key_invalid, key_archive_invalid, not_persisted, server_error,
}
use secure_voting_platform.Elections.{manager}
use secure_voting_platform.Ballots.{converted}
use secure_voting_platform.Results.{
  Tally, TallyRead, tallies, unavailable, uncaught, get_vote_tallies,
}
use secure_voting_platform.SignedResults.Signing.{
  Verification, Signer, SigningResult, sign_data, validate_local_public_key, local_rsa_backend,
  answer, verify_signature,
}

pub record ResultSigningPublicKey : Type 0 where
  pub key_id : Text
  pub algorithm : Text
  pub public_key_pem : Text

pub record SignedElectionResult : Type 0 where
  pub election_id : ℕ
  pub payload : Text
  pub signature : Text
  pub signer_backend : Text
  pub signature_algorithm : Text
  pub signing_key_id : Text
  pub signing_key_version : Option ℕ
  pub signed_at : ℕ
  pub signed_by : ℕ

-- The rows of the two archive tables, newest first.
pub record Archive : Type 0 where
  pub keys : List ResultSigningPublicKey
  pub signed : List SignedElectionResult

abbrev pub has_key_id : Text → ResultSigningPublicKey → Bool
has_key_id id k = text_eq k.key_id id

abbrev pub is_result_of : ℕ → SignedElectionResult → Bool
is_result_of id r = r.election_id == id

abbrev pub is_closed : Status → Bool
is_closed Status.closed = true
is_closed _ = false

abbrev tally_json : Tally → Json
tally_json t = Json.obj (
    Fields.field (codes "candidate_id") (Json.int (pos t.candidate_id)) (
      Fields.field (codes "name") (Json.str t.name) (
        Fields.field (codes "position") (Json.str t.position) (
          Fields.field (codes "region_id") (Json.int (pos t.region_id)) (
            Fields.field (codes "region") (Json.str t.region)
              (Fields.field (codes "votes") (Json.int (pos t.votes)) Fields.end))))))

abbrev pub tally_items : List Tally → Items
tally_items [] = Items.nil
tally_items (t ∷ ts) = Items.cons (tally_json t) (tally_items ts)

abbrev pub sum_votes : List Tally → ℕ
sum_votes [] = 0
sum_votes (t ∷ ts) = t.votes + sum_votes ts

-- `election_results`
abbrev pub election_results : Election → (signed_at : Text) → List Tally → Fields
election_results e signed_at ts = Fields.field (codes "election_id") (Json.int (pos e.id)) (
    Fields.field (codes "election_name") (Json.str e.name) (
      Fields.field (codes "signed_at") (Json.str signed_at) (
        Fields.field (codes "results") (Json.arr (tally_items ts))
          (Fields.field (codes "total_votes") (Json.int (pos (sum_votes ts))) Fields.end))))

abbrev pub read_tallies : TallyRead → Outcome (List Tally)
read_tallies unavailable = refuse results_unavailable
read_tallies uncaught = refuse server_error
read_tallies (tallies ts) = done ts

abbrev pub archived_key : Text → Archive → Option ResultSigningPublicKey
archived_key id a = find (has_key_id id) a.keys

-- The key archive after a local signature; a Vault signature leaves it.
unfoldable pub archive_key :
    Signer → SigningResult → Archive → Outcome (List ResultSigningPublicKey)
archive_key signer r a =
    if not (text_eq r.signer_backend local_rsa_backend)
    then done a.keys
    else if not (validate_local_public_key signer r.public_key_pem r.signing_key_id)
    then refuse signing_key_invalid
    else elim r.public_key_pem [
      | none ↦ refuse signing_key_invalid
      | some pem ↦ elim (archived_key r.signing_key_id a) [
        | none ↦ done (
            record {
              key_id = r.signing_key_id;
              algorithm = r.signature_algorithm;
              public_key_pem = pem;
            }
            ∷ a.keys)
        | some k ↦
            if text_eq k.algorithm r.signature_algorithm && text_eq k.public_key_pem pem
            then done a.keys
            else refuse key_archive_invalid
      ]
    ]

abbrev pub audit_signing : User → ℕ → Store → Store
audit_signing u id = record_audit_event (record {
  actor = some u.id;
  action = codes "result.sign";
  target_type = codes "election_result";
  target_id = id;
})

abbrev pub signed_row : User → ℕ → (now : ℕ) → Text → SigningResult → SignedElectionResult
signed_row u id now payload r = record {
  election_id = id;
  payload = payload;
  signature = r.signature;
  signer_backend = r.signer_backend;
  signature_algorithm = r.signature_algorithm;
  signing_key_id = r.signing_key_id;
  signing_key_version = r.signing_key_version;
  signed_at = now;
  signed_by = u.id;
}

-- How `get_latest_results` ends; a published row comes with the key that verifies it.
pub data Latest : Type 0 where
  invalid_request not_signed provenance_unavailable : Latest
  published : SignedElectionResult → (public_key_pem : Option Text) → Latest

-- How `verify_election_results` ends.
pub data VerifyAnswer : Type 0 where
  missing_data invalid_id no_id no_signed_result verification_unavailable uncaught_error :
      VerifyAnswer
  is_valid : Bool → VerifyAnswer

abbrev pub verify_answer : Verification → VerifyAnswer
verify_answer (answer b) = is_valid b
verify_answer _ = verification_unavailable

module _ (dumps : Fields → Text) (isoformat : ℕ → Text) (name_lt : Text → Text → Bool)
    (signer : Signer) where
  -- `sign_election_results`. `readable` and `persisted` say that the tallies can be read and that the
  -- commit succeeds.
  unfoldable pub sign_election_results :
      (readable persisted : Bool)
      → (now : ℕ) → User
      → (raw : Json) → Store
      → Archive
      → Outcome (Store × Archive)
  sign_election_results readable persisted now u raw s a = do
    refuse_if (not (has_role manager u)) forbidden
    z ← converted (to_int raw) invalid_election_id
    e ← or_refuse (find (λ (x : Election). is_id z x.id) s.elections) election_not_found
    refuse_if (not (is_closed e.status)) election_not_closed
    refuse_if (any (is_result_of e.id) a.signed) already_signed
    ts ← read_tallies (get_vote_tallies name_lt readable (Json.int (pos e.id)) s)
    let payload = dumps (election_results e (isoformat now) ts)
    r ← or_refuse (sign_data signer payload) signing_unavailable
    keys ← archive_key signer r a
    refuse_if (not persisted) not_persisted
    done (
      audit_signing u e.id s,
      record { keys = keys; signed = signed_row u e.id now payload r ∷ a.signed },
    )

  -- `get_latest_results`: the row signed last, of one election if one is named. Rows that were signed at
  -- the same time come in no particular order.
  abbrev pub latest_of : List SignedElectionResult → Option SignedElectionResult
  latest_of [] = none
  latest_of (r ∷ rs) = elim (latest_of rs) [
    | none ↦ some r
    | some q ↦ if ltb r.signed_at q.signed_at then some q else some r
  ]

  -- The stored key of a local signature, if it is the one that the row names.
  abbrev pub provenance : SignedElectionResult → Archive → Option (Option Text)
  provenance r a =
      if not (text_eq r.signer_backend local_rsa_backend)
      then some none
      else elim (archived_key r.signing_key_id a) [
        | none ↦ none
        | some k ↦
            if text_eq k.algorithm r.signature_algorithm
              && validate_local_public_key signer (some k.public_key_pem) r.signing_key_id
            then some (some k.public_key_pem)
            else none
      ]

  abbrev pub publish_result : Option SignedElectionResult → Archive → Latest
  publish_result none a = not_signed
  publish_result (some r) a = elim (provenance r a) [
    | none ↦ provenance_unavailable
    | some pem ↦ published r pem
  ]

  unfoldable pub get_latest_results : (election_id : Option Text) → Archive → Latest
  get_latest_results none a = publish_result (latest_of a.signed) a
  get_latest_results (some t) a = elim (int_of_text 10 t) [
    | none ↦ invalid_request
    | some z ↦ publish_result (latest_of (select (λ r. is_id z r.election_id) a.signed)) a
  ]

  -- The key of a stored row, looked up for a local signature only.
  abbrev pub key_of : SignedElectionResult → Archive → Option Text
  key_of r a =
      if text_eq r.signer_backend local_rsa_backend
      then elim (archived_key r.signing_key_id a) [ none ↦ none | some k ↦ some k.public_key_pem ]
      else none

  abbrev pub verify_stored :
      SignedElectionResult → (payload signature : Text) → Archive → VerifyAnswer
  verify_stored r payload signature a =
      if not (text_eq r.payload payload) || not (text_eq r.signature signature)
      then is_valid false
      else verify_answer (
          verify_signature signer payload signature r.signer_backend r.signature_algorithm
            r.signing_key_id r.signing_key_version (key_of r a))

  -- `int(data["election_id"])` without the booleans
  abbrev pub result_id : Json → Converted ℤ
  result_id (Json.bool b) = rejected
  result_id j = to_int j

  -- `verify_election_results` on the values `data` and `signature` of the request.
  unfoldable pub verify_election_results : (document signature : Json) → Archive → VerifyAnswer
  verify_election_results (Json.obj fs) (Json.str signature) a =
      if is_empty signature then missing_data else elim (get (codes "election_id") fs) [
        | none ↦ no_id
        | some j ↦ elim (result_id j) [
          | value z ↦ elim (find (λ (r : SignedElectionResult). is_id z r.election_id) a.signed) [
            | none ↦ no_signed_result
            | some r ↦ verify_stored r (dumps fs) signature a
          ]
          | Converted.rejected ↦ invalid_id
          | Converted.crash ↦ uncaught_error
        ]
      ]
  verify_election_results _ _ a = missing_data
