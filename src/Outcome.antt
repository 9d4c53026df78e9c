-- ===== src/Outcome.antt =====
-- How a request ends, and the state that its handler works on: the database and the key files.
-- A refusal stands for the JSON error or the flashed message, `status` for its HTTP code.
use secure_voting_platform.Prelude.{
  ℕ, ◌≡◌, refl, sym, ap, ◌∙◌, arith, Bool, true, false, Option, none, some,
}
use secure_voting_platform.Models.{Store}
use secure_voting_platform.Keys.{KeyState, KeyAction, KeyResult}

pub data Refusal : Type 0 where
  -- app/routes/main.py
  missing_fields invalid_election_id election_not_found election_not_open : Refusal
  not_eligible not_single_contest outside_region : Refusal
  invalid_blinded_format invalid_blinded_value key_unavailable : Refusal
  already_issued already_voted concurrent_duplicate : Refusal
  missing_ballot invalid_ballot_format malformed_ballot malformed_nullifier : Refusal
  invalid_signature candidate_not_in_election already_submitted : Refusal
  -- app/routes/elections.py and app/routes/candidates.py
  not_found name_required invalid_open_time invalid_close_time close_before_open : Refusal
  not_draft recovery_required other_election_open no_candidates not_open : Refusal
  candidate_fields_required invalid_region roster_frozen outside_delegate_region : Refusal
  candidate_name_required position_required forbidden : Refusal
  -- app/auth.py and app/routes/admin_users.py
  geo_mismatch invalid_username username_taken invalid_email email_taken : Refusal
  password_mismatch password_weak invalid_licence licence_taken : Refusal
  registration_unavailable registration_failed email_not_verified : Refusal
  -- app/routes/results.py
  election_not_closed already_signed results_unavailable signing_unavailable : Refusal
  signing_key_invalid key_archive_invalid not_persisted : Refusal
  -- an exception that the handler does not catch
  server_error : Refusal

-- The HTTP code of the JSON errors of app/routes/main.py and app/routes/results.py.
unfoldable pub status : Refusal → ℕ
status missing_fields = 400
status invalid_election_id = 400
status election_not_found = 404
status election_not_open = 409
status not_eligible = 403
status not_single_contest = 409
status outside_region = 403
status invalid_blinded_format = 400
status invalid_blinded_value = 400
status key_unavailable = 503
status already_issued = 409
status already_voted = 409
status concurrent_duplicate = 409
status missing_ballot = 400
status invalid_ballot_format = 400
status malformed_ballot = 400
status malformed_nullifier = 400
status invalid_signature = 403
status candidate_not_in_election = 400
status already_submitted = 409
status not_found = 404
status forbidden = 403
status election_not_closed = 409
status already_signed = 409
status results_unavailable = 503
status signing_unavailable = 503
status signing_key_invalid = 503
status key_archive_invalid = 503
status not_persisted = 503
status server_error = 500
status _ = 302

pub data Outcome (A : Type 0) : Type 0 where
  done : A → Outcome A
  refuse : Refusal → Outcome A

infixl 5 ◌>>=◌ ◌>>◌
abbrev pub ◌>>=◌ : {A B : Type 0} → Outcome A → (A → Outcome B) → Outcome B
done a >>= f = f a
refuse r >>= f = refuse r

abbrev pub ◌>>◌ : {B : Type 0} → Outcome (Unit {0}) → Outcome B → Outcome B
m >> k = m >>= λ _. k

-- `if b: return r`
abbrev pub refuse_if : Bool → Refusal → Outcome (Unit {0})
refuse_if true r = refuse r
refuse_if false r = done tt

abbrev pub or_refuse : {A : Type 0} → Option A → Refusal → Outcome A
or_refuse none r = refuse r
or_refuse (some a) r = done a

pub record Server : Type 0 where
  pub db : Store
  pub keys : KeyState

-- A call of app/security/blind_signature.py: what it did to the keys stays, whatever follows.
abbrev pub with_keys :
    {A B : Type 0} → KeyAction A → (KeyResult A → Outcome B) → Server → Outcome B × Server
with_keys m f s = let (r, k) = m s.keys in (f r, record s { keys = k })

-- The database session of a request: what is committed, and the rows as the handler has assigned them.
pub record Session : Type 0 where
  pub committed : Store
  pub working : Store

abbrev pub begin : Store → Session
begin d = record { committed = d; working = d }

-- `db.session.commit()`
abbrev pub commit_session : Session → Session
commit_session q = record q { committed = q.working }

-- The session is removed when the request ends, which rolls back what was assigned and not committed.
abbrev pub end_request : {A : Type 0} → Outcome A × Session → Server → Outcome A × Server
end_request (o, q) s = (o, record s { db = q.committed })

-- A request that ends with one commit, or is refused before it.
abbrev pub commit : {A : Type 0} → A → Outcome Store → Server → Outcome A × Server
commit a (done d) s = end_request (done a, commit_session (record (begin s.db) { working = d })) s
commit a (refuse r) s = end_request (refuse r, begin s.db) s

-- A refused request leaves the database as it was.
abbrev pub Atomic : {A : Type 0} → Store → Outcome A × Server → Type 0
Atomic d (done _, t) = Unit
Atomic d (refuse _, t) = t.db ≡ d

pub commit-Atomic :
    {A : Type 0} (a : A) (o : Outcome Store) (s : Server) → Atomic s.db (commit a o s)
commit-Atomic a (done d) s = tt
commit-Atomic a (refuse r) s = refl

pub Atomic-refuse :
    {A : Type 0} (d : Store) (m : Outcome A × Server) {r : Refusal} {t : Server}
    → Atomic d m
    → m ≡ (refuse r, t)
    → t.db ≡ d
Atomic-refuse d (done a, s) h e = cc
Atomic-refuse d (refuse r, s) h e = ap (λ (x : Server). x.db) (sym (ap (λ x. x.1) e)) ∙ h

pub commit-eq-done :
    {A : Type 0} (a : A) (o : Outcome Store) (s t : Server) {b : A}
    → commit a o s ≡ (done b, t)
    → (a ≡ b) × (o ≡ done t.db)
commit-eq-done a (done d) s t h = (ground arith, ground arith)
commit-eq-done a (refuse r) s t h = absurd (cc h)

-- Inversion of a chain that was not refused.
pub >>=-eq-done :
    {A B : Type 0} (m : Outcome A) (f : A → Outcome B) {b : B}
    → (m >>= f) ≡ done b
    → (a : A) × (m ≡ done a) × (f a ≡ done b)
>>=-eq-done (done a) f h = (a, refl, h)
>>=-eq-done (refuse r) f h = cc

pub refuse_if-eq-done : (b : Bool) (r : Refusal) → refuse_if b r ≡ done tt → b ≡ false
refuse_if-eq-done true r h = cc
refuse_if-eq-done false r h = refl

pub >>-eq-done :
    {B : Type 0} (c : Bool) (r : Refusal) (k : Outcome B) {b : B}
    → (refuse_if c r >> k) ≡ done b
    → (c ≡ false) × (k ≡ done b)
>>-eq-done true r k h = cc
>>-eq-done false r k h = (refl, h)

pub or_refuse-eq-done :
    {A : Type 0} (o : Option A) (r : Refusal) {a : A} → or_refuse o r ≡ done a → o ≡ some a
or_refuse-eq-done none r h = cc
or_refuse-eq-done (some b) r h = cc
