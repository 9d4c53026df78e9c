-- ===== src/Tests/Fixture.antt =====
-- A small election: one voter, one manager, one contest, and a toy keypair in the cache.
use secure_voting_platform.Prelude.{ℕ, true, false, Option, none, some, [], ◌∷◌}
use secure_voting_platform.Prelude.Int.{pos}
use secure_voting_platform.Prelude.Text.{Text, codes}
use secure_voting_platform.Json.{Json, Fields}
use secure_voting_platform.Models.{Store, User, ElectoralRoll, Election, Candidate, Status}
use secure_voting_platform.Keys.{PublicKey, PrivateKey, KeyPair, KeyState, Attempt, Root, Rename}
use secure_voting_platform.Outcome.{Server}
use secure_voting_platform.Ballots.{Runtime}

abbrev pub toy_public : PublicKey
toy_public = record { n = 33; e = 3; key_size = 2048 }

abbrev pub toy_pair : KeyPair
toy_pair = record {
  private_key = record { public_key = toy_public; d = 7 };
  public_key = toy_public;
}

-- A keypair that passes the validation of the key files.
abbrev pub generated_key : PrivateKey
generated_key = record { public_key = record { n = 33; e = 65537; key_size = 2048 }; d = 13 }

abbrev pub anchor : Text
anchor = codes "0123456789abcdef0123456789abcdef0123456789abcdef0123456789abcdef"

abbrev pub toy_fingerprint : PublicKey → Text
toy_fingerprint _ = anchor

abbrev pub toy_keys : KeyState
toy_keys = record { cache = (1, toy_pair) ∷ []; disk = [] }

abbrev pub no_keys : KeyState
no_keys = record { cache = []; disk = [] }

abbrev pub creation : Attempt
creation = record {
  root = Root.ready;
  generated = some generated_key;
  written = true;
  rename = Rename.renamed;
}

abbrev pub person : ℕ → Text → User
person id role_name = record {
  id = id;
  username = codes "alice";
  email = none;
  password_hash = codes "secret";
  driver_lic_no = codes "";
  driver_lic_hash = codes "";
  driver_lic_state = none;
  role = some (record { id = 1; name = role_name });
  account_status = codes "Approved";
  email_verified = true;
  created_at = 0;
  password_changed_at = none;
  session_version = 3;
  failed_login_attempts = 0;
  account_locked_until = none;
}

abbrev pub voter : User
voter = person 7 (codes "voter")

abbrev pub manager_user : User
manager_user = person 8 (codes "manager")

abbrev pub enrolment : ElectoralRoll
enrolment = record {
  id = 1;
  roll_number = codes "R1";
  driver_license_number = codes "";
  driver_license_hash = codes "";
  full_name = codes "Alice";
  date_of_birth = 0;
  address_line1 = codes "";
  address_line2 = none;
  suburb = codes "";
  state = codes "";
  postcode = codes "";
  region_id = 2;
  status = codes "active";
  verified = true;
  verified_at = none;
  user_id = some 7;
}

abbrev pub election : Status → Election
election st = record {
  id = 1;
  name = codes "Senate";
  status = st;
  open_at = none;
  close_at = none;
  blind_signing_key_id = some anchor;
  blind_key_recovery_required = false;
  created_by = none;
  created_at = 0;
}

abbrev pub new_draft : Election
new_draft = record (election Status.draft) { blind_signing_key_id = none }

abbrev pub candidate : Candidate
candidate = record {
  id = 5;
  name = codes "Bob";
  party = none;
  position = codes "Senator";
  region_id = 2;
  election_id = 1;
}

abbrev pub store : Election → Store
store e = record {
  regions = record { id = 2; name = codes "North" } ∷ [];
  users = voter ∷ manager_user ∷ [];
  rolls = enrolment ∷ [];
  elections = e ∷ [];
  candidates = candidate ∷ [];
  votes = [];
  receipts = [];
  tokens = [];
  nullifiers = [];
  next_id = 10;
  audit = [];
}

abbrev pub open_server : Server
open_server = record { db = store (election Status.open_); keys = toy_keys }

abbrev pub draft_server : Server
draft_server = record { db = store new_draft; keys = no_keys }

-- The request `{"blinded_ballot": "5", "election_id": 1}`.
abbrev pub token_body : Text → Option Json
token_body blinded = some (
    Json.obj (
      Fields.field (codes "blinded_ballot") (Json.str blinded)
        (Fields.field (codes "election_id") (Json.int (pos 1)) Fields.end)))

-- A ballot for candidate 5 of election 1, as it is parsed from the bytes `00`.
abbrev pub ballot_document : Json
ballot_document = Json.obj (
    Fields.field (codes "candidate_id") (Json.int (pos 5)) (
      Fields.field (codes "election_id") (Json.int (pos 1))
        (Fields.field (codes "nonce") (Json.str anchor) Fields.end)))

abbrev pub toy_runtime : Runtime
toy_runtime = record {
  sha256 = (λ _. 1 ∷ []);
  loads = (λ _. some ballot_document);
  isoformat = (λ _. codes "now");
}

abbrev pub ballot_body : Text → Option Json
ballot_body signature = some (
    Json.obj (
      Fields.field (codes "ballot") (Json.str (codes "00"))
        (Fields.field (codes "signature") (Json.str signature) Fields.end)))
