-- ===== src/Tests/Management.antt =====
-- The life of the small election and its roster.
use secure_voting_platform.Voters.{is_single_contest}
use secure_voting_platform.Keys.{
  remember, generate_blind_signing_keypair, new_dir, create, ensure_election_blind_signing_key,
  get_public_key_components, load_and_validate_keypair, publish,
}
use secure_voting_platform.Prelude.{ℕ, ◌≤◌, ◌≡◌, refl, none, some, [], ◌∷◌, count, arith}
use secure_voting_platform.Prelude.Text.{int_of_text, strip, read_digits, strip, codes}
use secure_voting_platform.Candidates.{
  new_candidate, draft_election, region_of, outside_region_of, create_candidate, CandidateForm,
  named,
}
use secure_voting_platform.Elections.Reconcile.{
  reconcile_one, reconcile_open_election_keys, is_unanchored, AllReconciled,
  reconcile_open_election_keys-anchors,
}
use secure_voting_platform.Keys.{KeyState, ok, load_keys}
use secure_voting_platform.Keys.Immutable.{Extends}
use secure_voting_platform.Elections.History.{stage, Served, History, History-forward}
use secure_voting_platform.Tests.Fixture.{no_keys}
use secure_voting_platform.Candidates.Roster.{IsFrozen, roster, RosterStep, RosterStep-frozen}
use secure_voting_platform.Tests.Fixture.{store, election, new_draft}
use secure_voting_platform.Outcome.{Outcome, done, refuse, Server}
use secure_voting_platform.Models.{
  Status, record_audit_event, has_role, Election, Store, is_status_open,
}
use secure_voting_platform.Elections.{record_opening, may_open, open_election, close_election}
use secure_voting_platform.Elections.Opening.{Opens, open_election-Opens, open_election-one_open}
use secure_voting_platform.Elections.Lifecycle.{status_in}
use secure_voting_platform.Tests.Fixture.{
  store, election, new_draft, draft_server, toy_fingerprint, creation, manager_user,
}

abbrev opening : Server → Outcome (Unit {0}) × Server
opening s = open_election toy_fingerprint creation 100 manager_user 1 s

abbrev opened_server : Server
opened_server = (opening draft_server).1

opens_draft : opening draft_server ≡ (done tt, opened_server)
unfolding open_election may_open has_role is_single_contest ensure_election_blind_signing_key
    generate_blind_signing_keypair create publish remember load_and_validate_keypair new_dir
    get_public_key_components record_opening
opens_draft = refl

open_election-Opens_example :
    Opens toy_fingerprint 100 1 draft_server.db opened_server.db opened_server.keys
open_election-Opens_example =
    open_election-Opens toy_fingerprint creation 100 manager_user 1 draft_server opened_server
      opens_draft

open_election-one_open_example :
    count (λ (e : Election). is_status_open e.status) opened_server.db.elections ≤ 1
open_election-one_open_example =
    open_election-one_open toy_fingerprint creation 100 manager_user 1 draft_server opened_server
      (omega arith) opens_draft

abbrev closed_store : Store
closed_store = elim (close_election 200 manager_user 1 opened_server.db) [
  | done t ↦ t
  | refuse r ↦ opened_server.db
]

closes_open : close_election 200 manager_user 1 opened_server.db ≡ done closed_store
unfolding close_election has_role open_election may_open is_single_contest
    ensure_election_blind_signing_key generate_blind_signing_keypair create publish remember
    load_and_validate_keypair new_dir get_public_key_components record_opening record_audit_event
closes_open = refl

History-forward_example :
    stage (status_in 1 draft_server.db.elections) ≤ stage (status_in 1 closed_store.elections)
History-forward_example =
    History-forward toy_fingerprint draft_server (record opened_server { db = closed_store }) 1
      (History.step draft_server opened_server (record opened_server { db = closed_store })
        (Served.opened creation 100 manager_user 1 draft_server opened_server opens_draft)
        (History.step opened_server (record opened_server { db = closed_store })
          (record opened_server { db = closed_store })
          (Served.closed 200 manager_user 1 opened_server
            (record opened_server { db = closed_store }) closes_open)
          (History.start (record opened_server { db = closed_store }))))

abbrev candidate_form : CandidateForm
candidate_form = record {
  name = some (codes "Carol");
  party = none;
  position = some (codes "Senator");
  region_id = some (codes "2");
  election_id = some (codes "2");
}

-- Election 1 is open, and election 2 a draft.
abbrev two_elections : Store
two_elections = record (store (election Status.open_)) {
  elections = election Status.open_ ∷ record new_draft { id = 2 } ∷ [];
}

abbrev with_carol : Store
with_carol = elim (create_candidate manager_user candidate_form two_elections) [
  | done t ↦ t
  | refuse r ↦ two_elections
]

adds_carol : create_candidate manager_user candidate_form two_elections ≡ done with_carol
unfolding create_candidate new_candidate has_role strip int_of_text draft_election region_of
    outside_region_of record_audit_event read_digits
adds_carol = refl

opened-IsFrozen : IsFrozen 1 two_elections
opened-IsFrozen = record { row = election Status.open_; found = refl; not_draft = refl }

one_candidate : (id : ℕ) → count (named id) two_elections.candidates ≤ 1
one_candidate id = ground arith

RosterStep-frozen_example : roster 1 with_carol ≡ roster 1 two_elections
RosterStep-frozen_example =
    RosterStep-frozen manager_user two_elections with_carol 1 one_candidate opened-IsFrozen
      (RosterStep.create candidate_form adds_carol)

-- An open election of an earlier release, without an anchored key.
abbrev legacy : Election
legacy = record (election Status.open_) { blind_signing_key_id = none }

abbrev legacy_keys : KeyState
legacy_keys =
    (reconcile_open_election_keys toy_fingerprint (λ id. creation) [] (legacy ∷ new_draft ∷ [])
      no_keys).1

reconciles :
    reconcile_open_election_keys toy_fingerprint
      (λ id. creation)
      []
      (legacy ∷ new_draft ∷ [])
      no_keys
    ≡ (ok (election Status.open_ ∷ new_draft ∷ [], 1), legacy_keys)
unfolding reconcile_open_election_keys reconcile_one ensure_election_blind_signing_key
    generate_blind_signing_keypair create publish remember load_and_validate_keypair new_dir
    get_public_key_components load_keys
reconciles = refl

reconcile_open_election_keys-anchors_example :
    AllReconciled toy_fingerprint
      (λ id. creation)
      []
      legacy_keys
      (legacy ∷ new_draft ∷ [])
      (election Status.open_ ∷ new_draft ∷ [])
    × (1 ≡ count is_unanchored (legacy ∷ new_draft ∷ []))
    × (count is_unanchored (election Status.open_ ∷ new_draft ∷ []) ≡ 0)
    × Extends no_keys legacy_keys
reconcile_open_election_keys-anchors_example =
    reconcile_open_election_keys-anchors toy_fingerprint (λ id. creation) []
      (legacy ∷ new_draft ∷ []) no_keys (election Status.open_ ∷ new_draft ∷ []) 1 legacy_keys
      reconciles
